-- ===== src/Catalog/Recordings/Examples.antt =====
-- The recordings of two workspaces, and the theorems on them.
use sintade.Prelude.{ℕ, ◌≡◌, refl, List, [], ◌∷◌, none, Pointwise, true, false}
use sintade.Prelude.Text.{codes}
use sintade.Prelude.Sort.{sort_by}
use sintade.Catalog.Recordings.{
  Recordings, insert_recording, count_active_recordings, mark_processing, reopen_failed,
  mark_failed, trash, watch_info, not_failed, trashed_before,
}
use sintade.Catalog.Recordings.Lifecycle.{Op, process, give_up, reopen, discard, apply, apply_all}
use sintade.Catalog.Recordings.Tenancy.{names, ChangesOnly, apply-ChangesOnly}

abbrev table : Recordings
table =
    unfold insert_recording in
    insert_recording 10 1 7 100 (codes "Demo") 11 (insert_recording 11 2 8 200 (codes "Talk") 12 [])

-- A finalized take of recording 1 of workspace 7; recording 2 is out of that workspace's reach.
processed_here : (mark_processing 20 1 7 5000 table).1 ≡ true
unfolding mark_processing insert_recording
processed_here = refl

processed_elsewhere : mark_processing 20 2 7 5000 table ≡ (table, false)
unfolding mark_processing insert_recording
processed_elsewhere = refl

abbrev history : List (ℕ × Op)
history = (20, process 1 7 5000) ∷ (30, give_up 1 7) ∷ (40, reopen 1 7) ∷ (50, discard 1 7) ∷ []

retried_once : (reopen_failed 45 1 7 (apply_all history table)).1 ≡ not_failed
unfolding apply_all apply mark_processing mark_failed reopen_failed trash insert_recording
retried_once = refl

in_trash :
    (watch_info 1 7 (apply_all history table) ≡ none)
    × (count_active_recordings 7 (apply_all history table) ≡ 0)
unfolding apply_all apply mark_processing mark_failed reopen_failed trash watch_info
    count_active_recordings insert_recording
in_trash = (refl, refl)

purged : trashed_before 51 50 (apply_all history table) ≡ (1, 7) ∷ []
unfolding apply_all apply mark_processing mark_failed reopen_failed trash trashed_before
    insert_recording sort_by
purged = refl

apply-ChangesOnly_example :
    Pointwise (ChangesOnly (names (discard 2 7))) table (apply 20 (discard 2 7) table)
apply-ChangesOnly_example = apply-ChangesOnly 20 (discard 2 7) table
