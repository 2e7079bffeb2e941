-- ===== src/Media/Edits/Examples.antt =====
-- Two edits of one recording; the older one is picked up again after the newer one was applied.
use sintade.Prelude.{ℕ, ◌≡◌, refl, true, false, List, [], ◌∷◌, none, some, any, map}
use sintade.Prelude.Text.{Text, codes, decimal}
use sintade.Catalog.Recordings.{
  Recording, ready, processing_row, mark_reprocessing, restore_ready, remeasure,
}
use sintade.Media.Edl.{KeptRange}
use sintade.Media.Edits.{Edit, new_edit, find_edit}
use sintade.Media.Edits.Service.{EditApplied, World, Version, begin_edit, swap, give_up}
use sintade.Media.Edits.Settled.{IsOnItsWay, is_on_its_way}
use sintade.Media.Edits.Shown.{IsForward}
use sintade.Media.Edits.Runs.{
  Run, idle, opened, begun, System, set, after_begin, opens, begins, swaps, Steps, stay, go,
}
use sintade.Media.Edits.Runs.Outcomes.{steps-processing, steps-IsForward}

abbrev shown : ℕ → Text
shown n = b'i' ∷ decimal n

abbrev payload : ℕ → ℕ → ℕ
payload edit_id workspace = edit_id

abbrev demo : Recording
demo = record {
  id = 1;
  workspace_id = 7;
  owner_id = 100;
  title = codes "Demo";
  state = ready;
  duration_ms = some 9000;
  width = some 640;
  height = some 360;
  size_bytes = some 90;
  current_take = 11;
  trashed_at = none;
  created_at = 10;
  updated_at = 10;
}

abbrev kept : List KeptRange
kept = record { start_ms = 0; end_ms = 5000 } ∷ []

abbrev first : Edit
first = new_edit 41 7 1 11 1 kept 9000 100

abbrev second : Edit
second = new_edit 42 7 1 11 2 kept 9000 100

abbrev start : World
start = record {
  edits = first ∷ second ∷ [];
  renditions = [];
  recordings = demo ∷ [];
  jobs = [];
  outbox = [];
  objects =
      codes "ws/i7/rec/i1/edits/1/mp4/default.mp4"
      ∷ codes "ws/i7/rec/i1/edits/2/mp4/default.mp4"
      ∷ [];
}

abbrev made : Version
made = record {
  duration_ms = 5000;
  width = 640;
  height = 360;
  bytes = 50;
  key = codes "ws/i7/rec/i1/edits/2/mp4/default.mp4";
  poster_bytes = 9;
  derived = [];
}

abbrev second_begun : World
second_begun = (begin_edit shown payload 20 second start).0

abbrev second_applied : World
second_applied = (swap shown payload 30 second made second_begun).0

abbrev both_over : World
both_over = (begin_edit shown payload 40 first second_applied).0

second_waits : IsOnItsWay shown payload 7 1 start second
unfolding find_edit
second_waits = record { found = refl; mine = refl; pending = refl }

first_waits : IsOnItsWay shown payload 7 1 second_applied first
unfolding find_edit begin_edit swap
first_waits = record { found = refl; mine = refl; pending = refl }

abbrev quiet : ℕ → Run
quiet _ = idle

abbrev at_start : System
at_start = record { world = start; runs = quiet }

abbrev second_open : ℕ → Run
second_open = set 42 (opened second) quiet

abbrev second_run : ℕ → Run
second_run = set 42 (after_begin second (begin_edit shown payload 20 second start).1) second_open

abbrev second_over : ℕ → Run
second_over = set 42 idle second_run

abbrev first_open : ℕ → Run
first_open = set 41 (opened first) second_over

abbrev at_end : System
at_end = record {
  world = both_over;
  runs = set 41 (after_begin first (begin_edit shown payload 40 first second_applied).1) first_open;
}

goes_on : second_run 42 ≡ begun second
unfolding begin_edit
goes_on = refl

steps : Steps shown payload 7 1 at_start at_end
steps = go (opens second refl second_waits) (
    go (begins 20 second refl) (
      go (swaps 30 second made goes_on)
        (go (opens first refl first_waits) (go (begins 40 first refl) stay))))

none_left : any (is_on_its_way shown payload 7 1) both_over.edits ≡ false
unfolding begin_edit swap
none_left = refl

-- The recording is ready once the older edit gave way.
ends_ready :
    both_over.recordings
    ≡ record demo { updated_at = 40; duration_ms = some 5000; size_bytes = some 50 } ∷ []
unfolding begin_edit swap remeasure restore_ready mark_reprocessing
ends_ready = refl

given_up_objects :
    (give_up shown payload 50 first (codes "ffmpeg failed") start).objects
    ≡ codes "ws/i7/rec/i1/edits/2/mp4/default.mp4" ∷ []
unfolding give_up decimal
given_up_objects = refl

steps-processing_example : any (processing_row 1 7) both_over.recordings ≡ false
steps-processing_example =
    steps-processing shown payload 7 1 at_start at_end steps (λ id. refl) refl none_left

steps-IsForward_example : IsForward shown payload 7 1 both_over.outbox
steps-IsForward_example = steps-IsForward shown payload 7 1 at_start at_end steps (λ id. refl) refl

-- With two runs of one edit at once: a run that is late begins an edit that the other run applied.
abbrev begun_late : World
begun_late =
    (begin_edit shown payload 40 second
      (swap shown payload 30 second made (record start { edits = second ∷ [] })).0).0

stays_processing : any (processing_row 1 7) begun_late.recordings ≡ true
unfolding begin_edit swap
stays_processing = refl

nothing_left : any (is_on_its_way shown payload 7 1) begun_late.edits ≡ false
unfolding begin_edit swap
nothing_left = refl

-- A run that is late gives up the newer edit that the other run applied.
abbrev given_up_late : World
given_up_late =
    (swap shown payload 50 first made
      (give_up shown payload 40 second (codes "ffmpeg failed") second_applied)).0

goes_back : map (λ (event : EditApplied). event.version) given_up_late.outbox ≡ 2 ∷ 1 ∷ []
unfolding give_up swap begin_edit
goes_back = refl
