-- ===== src/Media/Edits/Runs/Rows.antt =====
-- The row of a run's own edit, after what the run itself writes.
use sintade.Prelude.{
  ℕ, ◌-◌, ◌^◌, min, ◌≡◌, refl, true, false, ◌&&◌, inl, inr, Option, none, some, find, find_sound,
  find-update_where, any, Bool-cases,
}
use sintade.Prelude.Text.{Text}
use sintade.Media.Edits.{
  Status, queued, rendering, rendered, Edit, is_edit, find_edit, is_rendered, is_unrendered,
  is_pending, is_newer_applied, newer_applied, mark_rendering, mark_rendered,
}
use sintade.Media.Edits.Service.{World, Output, begin_edit, note_rendered}
use sintade.Media.Edits.Settled.{IsOnItsWay}
use sintade.Media.Edits.Runs.{Run, idle, opened, begun, after_begin}

-- A row with another status and output.
abbrev pub revised : Edit → Status → Option Text → Option Text → Option ℕ → Option ℕ → Edit
revised e status failure key duration bytes = record e {
  status = status;
  failure = failure;
  output_key = key;
  output_duration_ms = duration;
  output_bytes = bytes;
}

not_rendered : (s : Status) → is_pending s ≡ true → is_rendered s ≡ false → is_unrendered s ≡ true
not_rendered queued p q = refl
not_rendered rendering p q = refl
not_rendered rendered p q = cc
not_rendered _ p q = cc

module _ (show_id : ℕ → Text) (payload : ℕ → ℕ → ℕ) (ws rec : ℕ) where
  -- The row of a run's edit is on its way: as the run read it, and later with what the run itself
  -- wrote.
  abbrev pub IsRun : World → ℕ → Run → Type 0
  IsRun w id idle = Unit
  IsRun w id (opened e) = (e.id ≡ id) × IsOnItsWay show_id payload ws rec w e
  IsRun w id (begun e) =
      (e.id ≡ id)
      × (status : Status) × (failure : Option Text) × (key : Option Text) × (duration : Option ℕ)
      × (bytes : Option ℕ) × IsOnItsWay show_id payload ws rec w
          (revised e status failure key duration bytes)

  find_row :
      (e : Edit) (w : World)
      → IsOnItsWay show_id payload ws rec w e
      → find (is_edit e.id e.workspace_id) w.edits ≡ some e
  unfolding find_edit
  find_row e w k = k.found

  -- The row after `begin_edit` goes on.
  begun-OnItsWay :
      (e : Edit) (w : World)
      → IsOnItsWay show_id payload ws rec w e
      → is_rendered e.status ≡ false
      → (w' : World) → w'.edits ≡ mark_rendering e.id e.workspace_id w.edits
      → IsOnItsWay show_id payload ws rec w'
          (revised e rendering none e.output_key e.output_duration_ms e.output_bytes)
  unfolding mark_rendering find_edit
  begun-OnItsWay e w k not_yet w' same =
      let found : find (is_edit e.id e.workspace_id) w.edits ≡ some e = find_row e w k in
      let itself : is_edit e.id e.workspace_id e ≡ true =
        find_sound (is_edit e.id e.workspace_id) w.edits e found in
      let open_row : is_unrendered e.status ≡ true = not_rendered e.status k.pending not_yet in
      record {
        found =
            rw
              (
                same,
                find-update_where (is_edit e.id e.workspace_id)
                    (λ x. is_edit e.id e.workspace_id x && is_unrendered x.status)
                    (λ x. record x { status = rendering; failure = none }) w.edits (λ x _. refl),
                found,
                itself,
                open_row,
              )
              refl;
        mine = k.mine;
        pending = refl;
      }

  pub begin_edit-IsRun :
      (now : ℕ) (e : Edit) (w : World)
      → IsOnItsWay show_id payload ws rec w e
      → IsRun
          (begin_edit show_id payload now e w).0
          e.id
          (after_begin e (begin_edit show_id payload now e w).1)
  unfolding begin_edit newer_applied
  begin_edit-IsRun now e w k =
      elim (Bool-cases (any (is_newer_applied e.workspace_id e.recording_id e.version) w.edits)) [
        | inl newer ↦ rw newer tt
        | inr newest ↦ rw newest (elim (Bool-cases (is_rendered e.status)) [
          | inl ready ↦ rw ready (
            refl,
            e.status,
            e.failure,
            e.output_key,
            e.output_duration_ms,
            e.output_bytes,
            record { found = k.found; mine = k.mine; pending = k.pending },
          )
          | inr not_yet ↦ rw not_yet (
            refl,
            rendering,
            none,
            e.output_key,
            e.output_duration_ms,
            e.output_bytes,
            begun-OnItsWay e w k not_yet _ refl,
          )
        ])
      ]

  pub note_rendered-IsRun :
      (e c : Edit) (output : Output) (w : World)
      → IsOnItsWay show_id payload ws rec w c
      → c.id ≡ e.id
      → c.workspace_id ≡ e.workspace_id
      → IsOnItsWay show_id payload ws rec (note_rendered show_id payload e output w) (
          revised c rendered none
            (some output.key)
            (some (min 2147483647 output.duration_ms))
            (some (min (2 ^ 63 - 1) output.bytes)))
  unfolding note_rendered mark_rendered find_edit
  note_rendered-IsRun e c output w k same_id same_ws =
      let found = find_row c w k in
      let itself : is_edit c.id c.workspace_id c ≡ true =
        find_sound (is_edit c.id c.workspace_id) w.edits c found in
      record {
        found =
            rw
              (
                ← same_id,
                ← same_ws,
                find-update_where (is_edit c.id c.workspace_id) (is_edit c.id c.workspace_id)
                    (λ x.
                      revised x rendered none (some output.key)
                        (some (min 2147483647 output.duration_ms))
                        (some (min (2 ^ 63 - 1) output.bytes)))
                    w.edits (λ x _. refl),
                found,
                itself,
              )
              refl;
        mine = k.mine;
        pending = refl;
      }
