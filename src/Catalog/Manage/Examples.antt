-- ===== src/Catalog/Manage/Examples.antt =====
-- Two recordings in the trash, of which a purge finds one due.
use sintade.Prelude.{ℕ, ◌+◌, ◌≡◌, refl, [], ◌∷◌, ◌++◌, none, some, err}
use sintade.Prelude.Sort.{sort_by}
use sintade.Prelude.Text.{Text, codes}
use sintade.Catalog.Recordings.{Recording, ready, rename}
use sintade.Ingest.Scenario.{shown, shown-ShowsIds}
use sintade.Catalog.Manage.{Archive, not_found, rename_recording, purge_due, recording_prefix}
use sintade.Catalog.Manage.Purged.{IsNotDue, Keeps, purge_due-Keeps}

abbrev trashed : ℕ → ℕ → Recording
trashed id at = record {
  id = id;
  workspace_id = 7;
  owner_id = 100;
  title = codes "Demo";
  state = ready;
  duration_ms = some 9000;
  width = none;
  height = none;
  size_bytes = none;
  current_take = 11;
  trashed_at = some at;
  created_at = 10;
  updated_at = 10;
}

abbrev month : ℕ
month = 2592000

abbrev key : ℕ → Text
key id = recording_prefix shown 7 id ++ codes "mp4/default.mp4"

abbrev archive : Archive
archive = record {
  recordings = trashed 1 500 ∷ trashed 2 2000 ∷ [];
  chapters =
      record { workspace_id = 7; recording_id = 1; start_ms = 0; title = codes "One" }
      ∷ record { workspace_id = 7; recording_id = 2; start_ms = 0; title = codes "Two" }
      ∷ [];
  objects = key 1 ∷ key 2 ∷ [];
  outbox = [];
}

one_left : (purge_due shown (month + 1000) archive).0 ≡ record { recordings = 1; objects = 1 }
unfolding purge_due sort_by
one_left = refl

in_trash : rename_recording 20 7 1 (codes "New") archive ≡ err not_found
unfolding rename_recording rename
in_trash = refl

not_due : IsNotDue 1000 2 archive.recordings
not_due = ((λ h. cc), ((λ h. refl), tt))

purge_due-Keeps_example :
    Keeps 2
      (recording_prefix shown 7 2 ++ codes "mp4/default.mp4")
      archive
      (purge_due shown (month + 1000) archive).1
purge_due-Keeps_example =
    purge_due-Keeps shown shown-ShowsIds (month + 1000) 7 2 (codes "mp4/default.mp4") archive
      not_due
