-- ===== src/Media/Edits/Settled.antt =====
-- Transactions on the edits of one recording, each on an edit that is on its way at that moment,
-- and when the recording is `processing`. The code does not check that an edit is still on its way:
-- `Runs.Exclusive` has the condition on its runs under which it is.
use sintade.Prelude.{
  ℕ, ◌≡◌, refl, sym, ap, Bool, true, false, ◌&&◌, ◌⊎◌, inl, inr, List, [], ◌∷◌, ◌++◌, some, Result,
  ok, err, any, find, any-update_where, any-append, any-found, any-weaker, any-update_found,
  any-update_stays, Option-cases, Result-cases, ok-injective, Bool-cases, arith,
}
use sintade.Prelude.Text.{Text}
use sintade.Catalog.Recordings.{processing_row, restore_ready}
use sintade.Media.Edl.{KeptRange, is_identity}
use sintade.Media.Edl
use sintade.Media.Edits.{
  Edit, source_mp4, lock_recording, is_edit_of, is_edit, find_edit, is_rendered, is_unrendered,
  is_pending, is_other_pending, is_newer_applied, newer_applied, mark_rendering, others_pending,
  new_edit, next_version,
}
use sintade.Media.Edits.Service.{
  World, Version, Output, SubmittedEdit, SubmitEditError, submit, settle, supersede, begin_edit,
  swap, give_up, note_rendered,
}

module _ (show_id : ℕ → Text) (payload : ℕ → ℕ → ℕ) (ws rec : ℕ) where
  -- The row of an edit of the recording that is on its way.
  pub record IsOnItsWay (w : World) (e : Edit) : Type 0 where
    pub found : find_edit e.id e.workspace_id w.edits ≡ some e
    pub mine : is_edit_of ws rec e ≡ true
    pub pending : is_pending e.status ≡ true

  -- One transaction, on an edit that is on its way.
  infix 40 ◌⟶◌
  pub data ◌⟶◌ : World → World → Type 0 where
    submits :
        (now job id user : ℕ) (ranges : List KeptRange) {w w' : World} (s : SubmittedEdit)
        → submit show_id payload now job id ws rec user ranges w ≡ ok (w', s)
        → w ⟶ w'
    begins :
        (now : ℕ) (e : Edit) {w : World}
        → IsOnItsWay w e
        → w ⟶ (begin_edit show_id payload now e w).0
    notes :
        (e : Edit) (output : Output) {w : World}
        → IsOnItsWay w e
        → w ⟶ note_rendered show_id payload e output w
    swaps :
        (now : ℕ) (e : Edit) (v : Version) {w : World}
        → IsOnItsWay w e
        → w ⟶ (swap show_id payload now e v w).0
    gives_up :
        (now : ℕ) (e : Edit) (reason : Text) {w : World}
        → IsOnItsWay w e
        → w ⟶ give_up show_id payload now e reason w

  infix 40 ◌⟶*◌
  pub data ◌⟶*◌ : World → World → Type 0 where
    done : {w : World} → w ⟶* w
    and_then : {w u v : World} → w ⟶ u → u ⟶* v → w ⟶* v

  -- The recording is `processing` only while an edit of it is on its way.
  abbrev pub is_on_its_way : Edit → Bool
  is_on_its_way e = is_edit_of ws rec e && is_pending e.status

  abbrev pub IsSettled : World → Type 0
  IsSettled w =
      (any (processing_row rec ws) w.recordings ≡ false) ⊎ (any is_on_its_way w.edits ≡ true)

  here_pending : (w : World) (e : Edit) → IsOnItsWay w e → any is_on_its_way w.edits ≡ true
  unfolding find_edit
  here_pending w e k =
      any-found (is_edit e.id e.workspace_id) is_on_its_way w.edits e k.found
        (ground (arith, k.mine, k.pending))

  settle-IsSettled :
      (now : ℕ) (e : Edit) (w : World)
      → is_edit_of ws rec e ≡ true
      → IsSettled (settle show_id payload now e w)
  unfolding settle others_pending restore_ready
  settle-IsSettled now e w mine =
      elim (Bool-cases (others_pending e.workspace_id e.recording_id e.id w.edits)) [
        | inl waiting ↦ rw waiting (
            inr (
              any-weaker (is_other_pending e.workspace_id e.recording_id e.id) is_on_its_way w.edits
                (λ x k. ground arith) waiting))
        | inr last ↦ rw last (
            inl (
              any-update_where (processing_row rec ws)
                (processing_row e.recording_id e.workspace_id) _ w.recordings (λ r k. ground arith)
                (λ r k. ground arith)))
      ]

  still_pending : (a b : Bool) → (a && b) ≡ true → (a && true) ≡ true
  still_pending true b h = refl
  still_pending false b h = cc

  noted_row :
      (w : World) (e : Edit) → IsOnItsWay w e → find (is_edit e.id e.workspace_id) w.edits ≡ some e
  unfolding find_edit
  noted_row w e k = k.found

  -- What a submission adds.
  pub submit-row :
      (now job id user : ℕ) (ranges : List KeptRange) (w w' : World) (s : SubmittedEdit)
      → submit show_id payload now job id ws rec user ranges w ≡ ok (w', s)
      → (row : Edit) × (w'.edits ≡ w.edits ++ row ∷ [])
        × (is_on_its_way row ≡ true)
        × (w'.outbox ≡ w.outbox)
  unfolding submit
  submit-row now job id user ranges w w' s h =
      elim (Bool-cases (lock_recording ws rec w.recordings)) [
        | inr missing ↦ absurd (refused (rw missing at h))
        | inl there ↦ elim (Option-cases (source_mp4 ws rec w.edits w.renditions w.recordings)) [
          | inl none_yet ↦ absurd (refused (rw (there, none_yet) at h))
          | inr (source, is_source) ↦ elim (Result-cases (Edl.new ranges source.duration_ms)) [
            | inr (_, bad) ↦ absurd (refused (rw (there, is_source, bad) at h))
            | inl (edl, good) ↦ elim (Bool-cases (is_identity edl)) [
              | inl whole ↦ absurd (refused (rw (there, is_source, good, whole) at h))
              | inr part ↦
                  let same =
                    ap (λ (p : World × SubmittedEdit). p.0)
                      (ok-injective (rw (there, is_source, good, part) at h)) in
                  (
                    new_edit id ws rec source.take_id (next_version ws rec w.edits) edl.ranges
                        source.duration_ms user,
                    sym (ap (λ (v : World). v.edits) same),
                    ground arith,
                    sym (ap (λ (v : World). v.outbox) same),
                  )
            ]
          ]
        ]
      ]
    where
      refused :
          {e : SubmitEditError}
          → ◌≡◌ {A = Result SubmitEditError (World × SubmittedEdit)} (err e) (ok (w', s))
          → ⊥
      refused k = cc

  mark_rendering-pending :
      (w : World) (e : Edit)
      → IsOnItsWay w e
      → any is_on_its_way (mark_rendering e.id e.workspace_id w.edits) ≡ true
  unfolding mark_rendering find_edit
  mark_rendering-pending w e on_its_way =
      any-update_stays is_on_its_way (λ x. is_edit e.id e.workspace_id x && is_unrendered x.status)
        _ w.edits (λ x p q. still_pending (is_edit_of ws rec x) (is_pending x.status) q)
        (here_pending w e on_its_way)

  begin_edit-IsSettled :
      (now : ℕ) (e : Edit) (w : World)
      → IsOnItsWay w e
      → IsSettled (begin_edit show_id payload now e w).0
  unfolding begin_edit supersede newer_applied
  begin_edit-IsSettled now e w on_its_way =
      elim (Bool-cases (any (is_newer_applied e.workspace_id e.recording_id e.version) w.edits)) [
        | inl newer ↦ rw newer (settle-IsSettled now e _ on_its_way.mine)
        | inr newest ↦ rw newest (
            inr (elim (Bool-cases (is_rendered e.status)) [
              | inl ready ↦ rw ready (here_pending w e on_its_way)
              | inr not_yet ↦ rw not_yet (mark_rendering-pending w e on_its_way)
            ]))
      ]

  step-IsSettled : (w w' : World) → w ⟶ w' → IsSettled w → IsSettled w'
  unfolding swap supersede give_up newer_applied note_rendered submit
  step-IsSettled w w' (submits now job id user ranges s e) h =
      let (row, same, on_its_way, _) = submit-row now job id user ranges w w' s e in
      inr (rw (same, any-append is_on_its_way w.edits (row ∷ [])) (rw on_its_way (ground arith)))
  step-IsSettled w _ (begins now e k) h = begin_edit-IsSettled now e w k
  step-IsSettled w _ (notes e output k) h = inr (
      any-update_found (is_edit e.id e.workspace_id) is_on_its_way _ w.edits e (noted_row w e k)
        (λ p. still_pending (is_edit_of ws rec e) true (ground (arith, k.mine))))
  step-IsSettled w _ (swaps now e v k) h =
      elim (Bool-cases (any (is_newer_applied e.workspace_id e.recording_id e.version) w.edits)) [
        | inl newer ↦ rw newer (settle-IsSettled now e _ k.mine)
        | inr newest ↦ rw newest (settle-IsSettled now e _ k.mine)
      ]
  step-IsSettled w _ (gives_up now e reason k) h = settle-IsSettled now e _ k.mine

  run-IsSettled : (w w' : World) → w ⟶* w' → IsSettled w → IsSettled w'
  run-IsSettled w _ done h = h
  run-IsSettled w w' (and_then {u = u} first rest) h =
      run-IsSettled u w' rest (step-IsSettled w u first h)

  -- If each transaction is on an edit that is on its way at that moment, a recording that was not
  -- `processing` before is not `processing` once none of its edits is on its way.
  pub run-processing :
      (w w' : World)
      → w ⟶* w'
      → any (processing_row rec ws) w.recordings ≡ false
      → any is_on_its_way w'.edits ≡ false
      → any (processing_row rec ws) w'.recordings ≡ false
  run-processing w w' steps before none_left = elim (run-IsSettled w w' steps (inl before)) [
    | inl settled ↦ settled
    | inr left ↦ absurd (both left none_left)
  ]
    where
      both : any is_on_its_way w'.edits ≡ true → any is_on_its_way w'.edits ≡ false → ⊥
      both k l = cc
