-- ===== src/Media/Processing.antt =====
-- The state that processing a take works on, and the statements on `media_jobs`
-- (crates/media/src/infra/repo.rs).
pub mod Run
pub mod Service
pub mod Retry
pub mod Finished
pub mod Retried
mod Examples
use sintade.Prelude.{
  ℕ, suc, ◌+◌, Bool, true, false, ◌&&◌, List, [], ◌∷◌, ◌++◌, Option, none, some, ltb, ◌==◌,
  if◌then◌else◌, any, find, filter, update_where, count_where,
}
use sintade.Prelude.Sort.{sort_by}
use sintade.Prelude.Text.{Text}
use sintade.Platform.Jobs.{Job}
use sintade.Catalog.Recordings.{Recordings}
use sintade.Media.Manifest.{ManifestChunk}
use sintade.Media.Renditions.{Kind, Renditions}

pub data JobState : Type 0 where
  queued running done failed : JobState

-- A row of `media_jobs`.
pub record MediaJob : Type 0 where
  pub take_id : ℕ
  pub workspace_id : ℕ
  pub recording_id : ℕ
  pub mime_type : Text
  pub duration_ms : ℕ
  pub chunks : List ManifestChunk
  pub state : JobState
  pub attempts : ℕ
  pub last_error : Option Text
  pub created_at : ℕ
  pub started_at : Option ℕ
  pub finished_at : Option ℕ

pub data Event : Type 0 where
  recording_ready :
      (recording take_id workspace owner : ℕ) → Text → (duration_ms width height : ℕ) → Event
  processing_failed : (recording take_id workspace owner : ℕ) → Text → Text → Event
  rendition_ready : (recording take_id workspace : ℕ) → Kind → List Text → Event

-- What the service changes: its tables, the queue, the recordings and the outbox.
pub record World : Type 0 where
  pub media_jobs : List MediaJob
  pub renditions : Renditions
  pub jobs : List Job
  pub recordings : Recordings
  pub outbox : List Event

-- The kinds of jobs.
abbrev pub process_take_kind : ℕ
process_take_kind = 1

abbrev pub build_hls_kind : ℕ
build_hls_kind = 2

abbrev pub generate_sprite_kind : ℕ
generate_sprite_kind = 3

abbrev pub generate_waveform_kind : ℕ
generate_waveform_kind = 4

abbrev pub is_media_job : ℕ → ℕ → MediaJob → Bool
is_media_job take_id workspace j = j.take_id == take_id && j.workspace_id == workspace

abbrev pub new_media_job : ℕ → ℕ → ℕ → ℕ → Text → ℕ → List ManifestChunk → MediaJob
new_media_job now take_id workspace recording mime duration chunks = record {
  take_id = take_id;
  workspace_id = workspace;
  recording_id = recording;
  mime_type = mime;
  duration_ms = duration;
  chunks = chunks;
  state = queued;
  attempts = 0;
  last_error = none;
  created_at = now;
  started_at = none;
  finished_at = none;
}

-- `ON CONFLICT (take_id) DO NOTHING`: false if the take was recorded before.
unfoldable pub insert_job : MediaJob → List MediaJob → List MediaJob × Bool
insert_job row rows =
    if any (λ j. j.take_id == row.take_id) rows then (rows, false) else (rows ++ row ∷ [], true)

unfoldable pub find_job : ℕ → ℕ → List MediaJob → Option MediaJob
find_job take_id workspace = find (is_media_job take_id workspace)

abbrev pub is_unfinished : JobState → Bool
is_unfinished queued = true
is_unfinished running = true
is_unfinished _ = false

abbrev pub is_open : ℕ → ℕ → MediaJob → Bool
is_open take_id workspace j = is_media_job take_id workspace j && is_unfinished j.state

abbrev pub started : ℕ → MediaJob → MediaJob
started now j = record j { state = running; attempts = j.attempts + 1; started_at = some now }

unfoldable pub mark_running : ℕ → ℕ → ℕ → List MediaJob → List MediaJob × Bool
mark_running now take_id workspace rows = (
  update_where (is_open take_id workspace) (started now) rows,
  count_where (is_open take_id workspace) rows == 1,
)

unfoldable pub mark_rejected : ℕ → ℕ → ℕ → Text → List MediaJob → List MediaJob
mark_rejected now take_id workspace reason =
    update_where (is_media_job take_id workspace)
      λ j. record j { state = failed; last_error = some reason; finished_at = some now }

unfoldable pub mark_done : ℕ → ℕ → ℕ → List MediaJob → List MediaJob
mark_done now take_id workspace =
    update_where (is_media_job take_id workspace)
      λ j. record j { state = done; last_error = none; finished_at = some now }

abbrev pub newest_job : MediaJob → MediaJob → Bool
newest_job a b = ltb b.created_at a.created_at

abbrev pub first_job : List MediaJob → Option MediaJob
first_job [] = none
first_job (j ∷ _) = some j

abbrev pub latest_job : ℕ → ℕ → List MediaJob → Option MediaJob
latest_job recording workspace rows = first_job (
    sort_by newest_job
      (filter (λ (j : MediaJob). j.recording_id == recording && j.workspace_id == workspace) rows))

abbrev pub reset : MediaJob → MediaJob
reset j = record j {
  state = queued;
  attempts = 0;
  last_error = none;
  started_at = none;
  finished_at = none;
}

abbrev pub requeued : Option MediaJob → List MediaJob → List MediaJob × Option ℕ
requeued none rows = (rows, none)
requeued (some j) rows =
    (update_where (λ (k : MediaJob). k.take_id == j.take_id) reset rows, some j.take_id)

unfoldable pub requeue_latest_job : ℕ → ℕ → List MediaJob → List MediaJob × Option ℕ
requeue_latest_job recording workspace rows = requeued (latest_job recording workspace rows) rows
