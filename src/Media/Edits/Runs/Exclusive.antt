-- ===== src/Media/Edits/Runs/Exclusive.antt =====
-- A run that is under way acts on an edit that is on its way, as no other run of it is under way.
use sintade.Prelude.{
  ℕ, ◌-◌, ◌^◌, min, ◌≡◌, refl, sym, subst, false, inl, inr, [], ◌∷◌, ◌++◌, none, some, ◌==◌,
  find-append, Bool-cases, arith,
}
use sintade.Prelude.Text.{Text}
use sintade.Media.Edits.{rendered, Edit, is_edit, find_edit}
use sintade.Media.Edits.Service.{World, swap, give_up, note_rendered}
use sintade.Media.Edits.Settled.{IsOnItsWay, ◌⟶*◌, submit-row}
use sintade.Media.Edits.Settled
use sintade.Media.Edits.Runs.{
  Run, idle, opened, begun, System, set, Step, submits, opens, begins, notes, swaps, gives_up,
  drops, Steps, stay, go, IsQuiet,
}
use sintade.Media.Edits.Runs.Others.{
  LeavesOthers, begin_edit-LeavesOthers, swap-LeavesOthers, give_up-LeavesOthers,
  note_rendered-LeavesOthers,
}
use sintade.Media.Edits.Runs.Rows.{revised, IsRun, begin_edit-IsRun, note_rendered-IsRun}

module _ (show_id : ℕ → Text) (payload : ℕ → ℕ → ℕ) (ws rec : ℕ) where
  abbrev Inv : System → Type 0
  Inv s = (id : ℕ) → IsRun show_id payload ws rec s.world id (s.runs id)

  other-OnItsWay :
      (id i : ℕ) (w w' : World) (e : Edit)
      → LeavesOthers id w.edits w'.edits
      → (i == id) ≡ false
      → e.id ≡ i
      → IsOnItsWay show_id payload ws rec w e
      → IsOnItsWay show_id payload ws rec w' e
  other-OnItsWay id i w w' e others differ same k = record {
    found = others e.id e.workspace_id e (rw same differ) k.found;
    mine = k.mine;
    pending = k.pending;
  }

  IsRun-other :
      (id i : ℕ) (w w' : World) (r : Run)
      → LeavesOthers id w.edits w'.edits
      → (i == id) ≡ false
      → IsRun show_id payload ws rec w i r
      → IsRun show_id payload ws rec w' i r
  IsRun-other id i w w' idle others differ h = tt
  IsRun-other id i w w' (opened e) others differ (same, k) =
      (same, other-OnItsWay id i w w' e others differ same k)
  IsRun-other id i w w' (begun e) others differ (same, st, f, key, d, b, k) = (
    same,
    st,
    f,
    key,
    d,
    b,
    other-OnItsWay id i w w' (revised e st f key d b) others differ same k,
  )

  set-Inv :
      (id : ℕ) (r : Run) (runs : ℕ → Run) (w w' : World)
      → LeavesOthers id w.edits w'.edits
      → IsRun show_id payload ws rec w' id r
      → Inv (record { world = w; runs = runs })
      → Inv (record { world = w'; runs = set id r runs })
  set-Inv id r runs w w' others own h i = elim (Bool-cases (i == id)) [
    | inl e ↦
        let same : id ≡ i = ground arith in
        rw e (subst (λ n. IsRun show_id payload ws rec w' n r) same own)
    | inr e ↦ rw e (IsRun-other id i w w' (runs i) others e (h i))
  ]

  IsRun-append :
      (id : ℕ) (w w' : World) (row : Edit) (r : Run)
      → w'.edits ≡ w.edits ++ row ∷ []
      → IsRun show_id payload ws rec w id r
      → IsRun show_id payload ws rec w' id r
  unfolding find_edit
  IsRun-append id w w' row idle more h = tt
  IsRun-append id w w' row (opened e) more (same, k) = (
    same,
    record {
      found = rw more (find-append (is_edit e.id e.workspace_id) w.edits (row ∷ []) e k.found);
      mine = k.mine;
      pending = k.pending;
    },
  )
  IsRun-append id w w' row (begun e) more (same, st, f, key, d, b, k) = (
    same,
    st,
    f,
    key,
    d,
    b,
    record {
      found = rw more (
          find-append (is_edit e.id e.workspace_id) w.edits (row ∷ []) (revised e st f key d b)
            k.found);
      mine = k.mine;
      pending = k.pending;
    },
  )

  its_run :
      (s : System) (id : ℕ) (r : Run)
      → s.runs id ≡ r
      → Inv s
      → IsRun show_id payload ws rec s.world id r
  its_run s id r same h = subst (IsRun show_id payload ws rec s.world id) same (h id)

  -- A step is a transaction on an edit that is on its way, or none.
  Step-Inv :
      (s s' : System)
      → Step show_id payload ws rec s s'
      → Inv s
      → ◌⟶*◌ show_id payload ws rec s.world s'.world × Inv s'
  unfolding swap give_up note_rendered
  Step-Inv s _ (submits now job id user ranges {w = w} submitted e) h =
      let (row, more, _, _) =
        submit-row show_id payload ws rec now job id user ranges s.world w submitted e in
      (
        Settled.and_then (Settled.submits now job id user ranges submitted e) Settled.done,
        λ i. IsRun-append i s.world w row (s.runs i) more (h i),
      )
  Step-Inv s _ (opens e free k) h = (
    Settled.done,
    set-Inv e.id (opened e) s.runs s.world s.world (λ i ws' c differ found. found) (refl, k) h,
  )
  Step-Inv s _ (begins now e ours) h =
      let (_, k) = its_run s e.id (opened e) ours h in
      (
        Settled.and_then (Settled.begins now e k) Settled.done,
        set-Inv e.id _ s.runs s.world _ (begin_edit-LeavesOthers show_id payload now e s.world)
            (begin_edit-IsRun show_id payload ws rec now e s.world k) h,
      )
  Step-Inv s _ (notes e output ours) h =
      let (_, st, f, key, d, b, k) = its_run s e.id (begun e) ours h in
      (
        Settled.and_then (Settled.notes (revised e st f key d b) output k) Settled.done,
        set-Inv e.id (begun e) s.runs s.world _
            (note_rendered-LeavesOthers show_id payload e output s.world)
            (
              refl,
              rendered,
              none,
              some output.key,
              some (min 2147483647 output.duration_ms),
              some (min (2 ^ 63 - 1) output.bytes),
              note_rendered-IsRun show_id payload ws rec e (revised e st f key d b) output s.world k
                  refl refl,
            )
            h,
      )
  Step-Inv s _ (swaps now e v ours) h =
      let (_, st, f, key, d, b, k) = its_run s e.id (begun e) ours h in
      (
        Settled.and_then (Settled.swaps now (revised e st f key d b) v k) Settled.done,
        set-Inv e.id idle s.runs s.world _ (swap-LeavesOthers show_id payload now e v s.world) tt h,
      )
  Step-Inv s _ (gives_up now e reason ours) h =
      let (_, st, f, key, d, b, k) = its_run s e.id (begun e) ours h in
      (
        Settled.and_then (Settled.gives_up now (revised e st f key d b) reason k) Settled.done,
        set-Inv e.id idle s.runs s.world _
            (give_up-LeavesOthers show_id payload now e reason s.world) tt h,
      )
  Step-Inv s _ (drops id) h =
      (Settled.done, set-Inv id idle s.runs s.world s.world (λ i ws' c differ found. found) tt h)

  then_on :
      {u v w : World}
      → ◌⟶*◌ show_id payload ws rec u v
      → ◌⟶*◌ show_id payload ws rec v w
      → ◌⟶*◌ show_id payload ws rec u w
  then_on Settled.done rest = rest
  then_on (Settled.and_then first more) rest = Settled.and_then first (then_on more rest)

  transactions :
      (s s' : System)
      → Steps show_id payload ws rec s s'
      → Inv s
      → ◌⟶*◌ show_id payload ws rec s.world s'.world
  transactions s _ stay h = Settled.done
  transactions s s' (go {t = t} first rest) h =
      let (now_done, kept) = Step-Inv s t first h in then_on now_done (transactions t s' rest kept)

  -- The runs that begin from none act on edits that are on their way only.
  pub transactions_of_runs :
      (s s' : System)
      → Steps show_id payload ws rec s s'
      → IsQuiet s
      → ◌⟶*◌ show_id payload ws rec s.world s'.world
  transactions_of_runs s s' steps quiet =
      transactions s s' steps
        (λ id. subst (IsRun show_id payload ws rec s.world id) (sym (quiet id)) tt)
