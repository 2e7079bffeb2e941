-- ===== src/Media/Edits/Shown.antt =====
-- The versions that viewers are given, one after the other, by transactions on edits that are on
-- their way.
use sintade.Prelude.{
  ℕ, ◌≤◌, ◌≡◌, refl, sym, subst, Bool, true, false, ◌&&◌, inl, inr, List, [], ◌∷◌, ◌++◌, none, some,
  ltb, any, find, find_sound, find-append, update_where, find-update_where, any-found, Bool-cases,
  arith, All, All-map, All-append, Pairwise, Pairwise-append_last,
}
use sintade.Prelude.Text.{Text}
use sintade.Media.Edits.{
  Status, queued, rendering, rendered, applied, Edit, Edits, is_edit_of, is_edit, find_edit,
  is_rendered, is_unrendered, is_applied, is_pending, is_newer_applied, is_other_pending,
  newer_applied, mark_rendering, mark_rendered, mark_applied, mark_superseded, mark_edit_failed,
  others_pending,
}
use sintade.Media.Edits.Service.{
  EditApplied, World, Version, edit_applied, settle, supersede, begin_edit, show_version, swap,
  give_up, note_rendered,
}
use sintade.Media.Edits.Settled.{
  IsOnItsWay, ◌⟶◌, submits, begins, notes, swaps, gives_up, ◌⟶*◌, done, and_then, submit-row,
}

module _ (show_id : ℕ → Text) (payload : ℕ → ℕ → ℕ) (ws rec : ℕ) where
  -- The edit of an event is applied.
  abbrev IsRecorded : Edits → EditApplied → Type 0
  IsRecorded edits event =
      (row : Edit) × (find (is_edit event.edit_id event.workspace_id) edits ≡ some row)
      × (is_edit_of ws rec row ≡ true)
      × (row.version ≡ event.version)
      × (is_applied row.status ≡ true)

  -- Each version that was applied is at least the one before it.
  abbrev pub IsForward : List EditApplied → Type 0
  IsForward = Pairwise λ a b. a.version ≤ b.version

  abbrev Inv : World → Type 0
  Inv w = All (IsRecorded w.edits) w.outbox × IsForward w.outbox

  on_row :
      (w : World) (e : Edit)
      → IsOnItsWay show_id payload ws rec w e
      → find (is_edit e.id e.workspace_id) w.edits ≡ some e
  unfolding find_edit
  on_row w e k = k.found

  -- The edit that is on its way is not one that was applied.
  other_row :
      (w : World) (e : Edit) (event : EditApplied) (row : Edit)
      → IsOnItsWay show_id payload ws rec w e
      → find (is_edit event.edit_id event.workspace_id) w.edits ≡ some row
      → is_applied row.status ≡ true
      → is_edit e.id e.workspace_id row ≡ true
      → ⊥
  other_row w e event row k found is_applied_row same =
      let its : is_edit event.edit_id event.workspace_id row ≡ true =
        find_sound (is_edit event.edit_id event.workspace_id) w.edits row found in
      let same_id : event.edit_id ≡ e.id = ground arith in
      let same_ws : event.workspace_id ≡ e.workspace_id = ground arith in
      let again : find (is_edit e.id e.workspace_id) w.edits ≡ some row =
        rw (← same_id, ← same_ws) found in
      let one : row ≡ e = cc (again, on_row w e k) in
      pending_applied e.status k.pending
        (subst (λ r. is_applied r.status ≡ true) one is_applied_row)
    where
      pending_applied : (s : Status) → is_pending s ≡ true → is_applied s ≡ true → ⊥
      pending_applied queued p q = cc
      pending_applied rendering p q = cc
      pending_applied rendered p q = cc
      pending_applied _ p q = cc

  update-IsRecorded :
      (w : World) (e : Edit) (p : Edit → Bool) (f : Edit → Edit) (event : EditApplied)
      → IsOnItsWay show_id payload ws rec w e
      → ((x : Edit) → p x ≡ true → is_edit e.id e.workspace_id x ≡ true)
      → ((q id : ℕ) (x : Edit) → is_edit q id (f x) ≡ is_edit q id x)
      → IsRecorded w.edits event
      → IsRecorded (update_where p f w.edits) event
  update-IsRecorded w e p f event k only same (row, found, mine, version, is_applied_row) =
      elim (Bool-cases (p row)) [
        | inl changed ↦ absurd (other_row w e event row k found is_applied_row (only row changed))
        | inr kept ↦ (
          row,
          rw
              (
                find-update_where (is_edit event.edit_id event.workspace_id) p f w.edits
                    (λ x _. same _ _ x),
                found,
                kept,
              )
              refl,
          mine,
          version,
          is_applied_row,
        )
      ]

  update-Inv :
      (w : World) (e : Edit) (p : Edit → Bool) (f : Edit → Edit)
      → IsOnItsWay show_id payload ws rec w e
      → ((x : Edit) → p x ≡ true → is_edit e.id e.workspace_id x ≡ true)
      → ((q id : ℕ) (x : Edit) → is_edit q id (f x) ≡ is_edit q id x)
      → Inv w
      → Inv (record w { edits = update_where p f w.edits })
  update-Inv w e p f k only same (recorded, forward) = (
    All-map (IsRecorded w.edits) (IsRecorded (update_where p f w.edits))
        (λ event r. update-IsRecorded w e p f event k only same r) w.outbox recorded,
    forward,
  )

  settle-Inv : (now : ℕ) (e : Edit) (w : World) → Inv w → Inv (settle show_id payload now e w)
  unfolding settle others_pending
  settle-Inv now e w h =
      elim (Bool-cases (any (is_other_pending e.workspace_id e.recording_id e.id) w.edits)) [
        | inl waiting ↦ rw waiting h
        | inr last ↦ rw last h
      ]

  supersede-Inv :
      (now : ℕ) (e : Edit) (w : World)
      → IsOnItsWay show_id payload ws rec w e
      → Inv w
      → Inv (supersede show_id payload now e w)
  unfolding supersede mark_superseded
  supersede-Inv now e w k h =
      settle-Inv now e _
        (update-Inv w e (is_edit e.id e.workspace_id) _ k (λ x p. p) (λ q id x. refl) h)

  begin_edit-Inv :
      (now : ℕ) (e : Edit) (w : World)
      → IsOnItsWay show_id payload ws rec w e
      → Inv w
      → Inv (begin_edit show_id payload now e w).0
  unfolding begin_edit newer_applied mark_rendering
  begin_edit-Inv now e w k h =
      elim (Bool-cases (any (is_newer_applied e.workspace_id e.recording_id e.version) w.edits)) [
        | inl newer ↦ rw newer (supersede-Inv now e w k h)
        | inr newest ↦ rw newest (elim (Bool-cases (is_rendered e.status)) [
          | inl ready ↦ rw ready h
          | inr not_yet ↦ rw not_yet (
              update-Inv w e (λ x. is_edit e.id e.workspace_id x && is_unrendered x.status) _ k
                (λ x p. ground arith) (λ q id x. refl) h)
        ])
      ]

  -- No event is of a newer version than an edit that no newer one was applied before.
  not_newer :
      (w : World) (e : Edit) (event : EditApplied)
      → is_edit_of ws rec e ≡ true
      → any (is_newer_applied e.workspace_id e.recording_id e.version) w.edits ≡ false
      → IsRecorded w.edits event
      → event.version ≤ e.version
  not_newer w e event mine newest (row, found, row_mine, version, is_applied_row) =
      elim (Bool-cases (ltb e.version row.version)) [
        | inr not_above ↦ ground arith
        | inl above ↦
            let is_newer : is_newer_applied e.workspace_id e.recording_id e.version row ≡ true =
              ground arith in
            let seen =
              any-found (is_edit event.edit_id event.workspace_id)
                (is_newer_applied e.workspace_id e.recording_id e.version) w.edits row found
                is_newer in
            absurd (both seen newest)
      ]
    where
      both : {b : Bool} → b ≡ true → b ≡ false → ⊥
      both p q = cc

  show_version-Inv :
      (now : ℕ) (e : Edit) (v : Version) (w : World)
      → IsOnItsWay show_id payload ws rec w e
      → any (is_newer_applied e.workspace_id e.recording_id e.version) w.edits ≡ false
      → Inv w
      → Inv (show_version show_id payload now e v w)
  unfolding show_version mark_applied
  show_version-Inv now e v w k newest (recorded, forward) =
      let kept =
        update-Inv w e (is_edit e.id e.workspace_id) _ k (λ x p. p) (λ q id x. refl)
          (recorded, forward) in
      (
        All-append _ w.outbox (edit_applied show_id payload e v ∷ []) kept.0 (shown, tt),
        Pairwise-append_last (λ (a b : EditApplied). a.version ≤ b.version) w.outbox
            (edit_applied show_id payload e v) forward
            (All-map (IsRecorded w.edits) _ (λ event r. not_newer w e event k.mine newest r)
              w.outbox recorded),
      )
    where
      itself : is_edit e.id e.workspace_id e ≡ true
      itself = find_sound (is_edit e.id e.workspace_id) w.edits e (on_row w e k)

      shown :
          IsRecorded (mark_applied e.id e.workspace_id w.edits) (edit_applied show_id payload e v)
      shown = (
        record e { status = applied; failure = none },
        rw
            (
              find-update_where (is_edit e.id e.workspace_id) (is_edit e.id e.workspace_id)
                  (λ x. record x { status = applied; failure = none }) w.edits (λ x _. refl),
              on_row w e k,
              itself,
            )
            refl,
        k.mine,
        refl,
        refl,
      )

  submitted-Inv :
      (w w' : World) (row : Edit)
      → w'.edits ≡ w.edits ++ row ∷ []
      → w'.outbox ≡ w.outbox
      → Inv w
      → Inv w'
  submitted-Inv w w' row same same_outbox (recorded, forward) =
      rw (same, same_outbox)
        (
          All-map (IsRecorded w.edits) (IsRecorded (w.edits ++ row ∷ []))
              (λ event r. (
                r.0,
                find-append (is_edit event.edit_id event.workspace_id) w.edits (row ∷ []) r.0 r.1,
                r.2,
                r.3,
                r.4,
              ))
              w.outbox recorded,
          forward,
        )

  step-Inv : (w w' : World) → ◌⟶◌ show_id payload ws rec w w' → Inv w → Inv w'
  unfolding swap give_up newer_applied note_rendered mark_rendered mark_edit_failed
  step-Inv w w' (submits now job id user ranges s e) h =
      let (row, same, _, same_outbox) =
        submit-row show_id payload ws rec now job id user ranges w w' s e in
      submitted-Inv w w' row same same_outbox h
  step-Inv w _ (begins now e k) h = begin_edit-Inv now e w k h
  step-Inv w _ (notes e output k) h =
      update-Inv w e (is_edit e.id e.workspace_id) _ k (λ x p. p) (λ q id x. refl) h
  step-Inv w _ (swaps now e v k) h =
      elim (Bool-cases (any (is_newer_applied e.workspace_id e.recording_id e.version) w.edits)) [
        | inl newer ↦ rw newer (supersede-Inv now e w k h)
        | inr newest ↦ rw newest (settle-Inv now e _ (show_version-Inv now e v w k newest h))
      ]
  step-Inv w _ (gives_up now e reason k) h =
      settle-Inv now e _
        (update-Inv w e (is_edit e.id e.workspace_id) _ k (λ x p. p) (λ q id x. refl) h)

  run-Inv : (w w' : World) → ◌⟶*◌ show_id payload ws rec w w' → Inv w → Inv w'
  run-Inv w _ done h = h
  run-Inv w w' (and_then {u = u} first rest) h = run-Inv u w' rest (step-Inv w u first h)

  -- If each transaction is on an edit that is on its way at that moment, and no version was applied
  -- before, each version that is applied is at least the one before it.
  pub run-IsForward :
      (w w' : World) → ◌⟶*◌ show_id payload ws rec w w' → w.outbox ≡ [] → IsForward w'.outbox
  run-IsForward w w' steps none_yet =
      (run-Inv w w' steps
        (subst (All (IsRecorded w.edits)) (sym none_yet) tt, subst IsForward (sym none_yet) tt)).1
