-- ===== src/Media/Edits/Runs/Others.antt =====
-- What a transaction of a run leaves as it is: the rows of other edits.
use sintade.Prelude.{
  ℕ, ◌≡◌, refl, Bool, true, false, ◌&&◌, inl, inr, some, ◌==◌, find_sound, update_where,
  find-update_where, any, Bool-cases, arith,
}
use sintade.Prelude.Text.{Text}
use sintade.Media.Edits.{
  Edit, Edits, is_edit, find_edit, is_rendered, is_unrendered, is_newer_applied, newer_applied,
  mark_rendering, mark_rendered, mark_applied, mark_superseded, mark_edit_failed, others_pending,
  is_other_pending,
}
use sintade.Media.Edits.Service.{
  World, Version, Output, settle, supersede, begin_edit, show_version, swap, give_up, note_rendered,
}

-- What a transaction of another run leaves of the rows.
abbrev pub LeavesOthers : ℕ → Edits → Edits → Type 0
LeavesOthers id before after =
    (i ws' : ℕ) (c : Edit)
    → (i == id) ≡ false
    → find_edit i ws' before ≡ some c
    → find_edit i ws' after ≡ some c

update-LeavesOthers :
    (id : ℕ) (before after : Edits) (p : Edit → Bool) (f : Edit → Edit)
    → after ≡ update_where p f before
    → ((x : Edit) → p x ≡ true → (x.id == id) ≡ true)
    → ((q q' : ℕ) (x : Edit) → is_edit q q' (f x) ≡ is_edit q q' x)
    → LeavesOthers id before after
unfolding find_edit
update-LeavesOthers id before after p f same only keeps i ws' c differ found =
    elim (Bool-cases (p c)) [
      | inl changed ↦
          let mine : (c.id == id) ≡ true = only c changed in
          let its : is_edit i ws' c ≡ true = find_sound (is_edit i ws') before c found in
          absurd (ground arith)
      | inr kept ↦
          rw
            (same, find-update_where (is_edit i ws') p f before (λ x _. keeps i ws' x), found, kept)
            refl
    ]

module _ (show_id : ℕ → Text) (payload : ℕ → ℕ → ℕ) where
  settle-edits : (now : ℕ) (e : Edit) (w : World) → (settle show_id payload now e w).edits ≡ w.edits
  unfolding settle others_pending
  settle-edits now e w =
      elim (Bool-cases (any (is_other_pending e.workspace_id e.recording_id e.id) w.edits)) [
        | inl waiting ↦ rw waiting refl
        | inr last ↦ rw last refl
      ]

  supersede-LeavesOthers :
      (now : ℕ) (e : Edit) (w : World)
      → LeavesOthers e.id w.edits (supersede show_id payload now e w).edits
  unfolding supersede mark_superseded
  supersede-LeavesOthers now e w =
      update-LeavesOthers e.id w.edits _ (is_edit e.id e.workspace_id) _ (settle-edits now e _)
        (λ x p. ground arith) (λ q q' x. refl)

  pub begin_edit-LeavesOthers :
      (now : ℕ) (e : Edit) (w : World)
      → LeavesOthers e.id w.edits (begin_edit show_id payload now e w).0.edits
  unfolding begin_edit newer_applied mark_rendering
  begin_edit-LeavesOthers now e w =
      elim (Bool-cases (any (is_newer_applied e.workspace_id e.recording_id e.version) w.edits)) [
        | inl newer ↦ rw newer (supersede-LeavesOthers now e w)
        | inr newest ↦ rw newest (elim (Bool-cases (is_rendered e.status)) [
          | inl ready ↦ rw ready (λ i ws' c differ found. found)
          | inr not_yet ↦ rw not_yet (
              update-LeavesOthers e.id w.edits _
                (λ x. is_edit e.id e.workspace_id x && is_unrendered x.status) _ refl
                (λ x p. ground arith) (λ q q' x. refl))
        ])
      ]

  pub swap-LeavesOthers :
      (now : ℕ) (e : Edit) (v : Version) (w : World)
      → LeavesOthers e.id w.edits (swap show_id payload now e v w).0.edits
  unfolding swap newer_applied show_version mark_applied
  swap-LeavesOthers now e v w =
      elim (Bool-cases (any (is_newer_applied e.workspace_id e.recording_id e.version) w.edits)) [
        | inl newer ↦ rw newer (supersede-LeavesOthers now e w)
        | inr newest ↦ rw newest (
            update-LeavesOthers e.id w.edits _ (is_edit e.id e.workspace_id) _
              (settle-edits now e _) (λ x p. ground arith) (λ q q' x. refl))
      ]

  pub give_up-LeavesOthers :
      (now : ℕ) (e : Edit) (reason : Text) (w : World)
      → LeavesOthers e.id w.edits (give_up show_id payload now e reason w).edits
  unfolding give_up mark_edit_failed
  give_up-LeavesOthers now e reason w =
      update-LeavesOthers e.id w.edits _ (is_edit e.id e.workspace_id) _ (settle-edits now e _)
        (λ x p. ground arith) (λ q q' x. refl)

  pub note_rendered-LeavesOthers :
      (e : Edit) (output : Output) (w : World)
      → LeavesOthers e.id w.edits (note_rendered show_id payload e output w).edits
  unfolding note_rendered mark_rendered
  note_rendered-LeavesOthers e output w =
      update-LeavesOthers e.id w.edits _ (is_edit e.id e.workspace_id) _ refl (λ x p. ground arith)
        (λ q q' x. refl)
