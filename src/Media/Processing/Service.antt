-- ===== src/Media/Processing/Service.antt =====
-- Processing a take (crates/media/src/app/service.rs). What the
-- runs of ffmpeg and the object store give is an argument, as are the clock and the identifiers
-- of new jobs. A payload is a number, `payload` of the take and the workspace.
use sintade.Prelude.{
  ℕ, Bool, true, false, List, [], ◌∷◌, ◌++◌, Option, none, some, Result, ok, err, fail_if, map_err,
  ◌>>=◌, ◌>>◌, ltb, leb, if◌then◌else◌,
}
use sintade.Prelude.Text.{Text, codes}
use sintade.Platform.Jobs.{enqueue}
use sintade.Catalog.Recordings.{RecordingOwner, Measured, mark_ready, mark_failed}
use sintade.Media.Manifest.{ManifestChunk, ManifestError}
use sintade.Media.Manifest
use sintade.Media.Storage.{mp4_key, poster_key}
use sintade.Media.Renditions.{mp4, thumbnail, StoredRendition, default, poster, record_renditions}
use sintade.Media.Processing.Run.{StepError, reject, retry, Steps, Produced, run_in_scratch}
use sintade.Media.Processing.{
  MediaJob, Event, recording_ready, processing_failed, World, process_take_kind,
  generate_sprite_kind, generate_waveform_kind, new_media_job, insert_job, find_job, mark_running,
  mark_rejected, mark_done,
}

-- `TakeFinalized` as media reads it.
pub record TakeFinalizedMessage : Type 0 where
  pub workspace_id : ℕ
  pub take_id : ℕ
  pub recording_id : ℕ
  pub chunk_count : ℕ
  pub duration_ms : ℕ
  pub mime : Text
  pub chunks : List ManifestChunk

pub data EnqueueError : Type 0 where
  invalid_manifest : ManifestError → EnqueueError
  invalid_duration : EnqueueError

pub data ProcessOutcome : Type 0 where
  ran already_finished no_such_take rejected : ProcessOutcome

-- The identifiers of the jobs that a call queues.
pub record JobIds : Type 0 where
  pub sprite : ℕ
  pub waveform : ℕ

abbrev pub gave_up : Text
gave_up = codes "processing failed after several attempts"

abbrev pub i32_max : ℕ
i32_max = 2147483647

-- `unwrap_or(i32::MAX)` and `unwrap_or(0)` of a conversion to i32.
abbrev pub or_max : ℕ → ℕ
or_max n = if leb n i32_max then n else i32_max

abbrev pub or_zero : ℕ → ℕ
or_zero n = if leb n i32_max then n else 0

module _ (show_id : ℕ → Text) (payload : ℕ → ℕ → ℕ) where
  abbrev pub mp4_row : MediaJob → Produced → StoredRendition
  mp4_row job produced = record {
    kind = mp4;
    variant = default;
    key = mp4_key show_id job.workspace_id job.recording_id;
    bytes = produced.report.mp4_bytes;
    duration_ms = some produced.duration_ms;
    content_type = none;
  }

  abbrev pub poster_row : MediaJob → Produced → StoredRendition
  poster_row job produced = record {
    kind = thumbnail;
    variant = poster;
    key = poster_key show_id job.workspace_id job.recording_id;
    bytes = produced.report.poster_bytes;
    duration_ms = none;
    content_type = none;
  }

  unfoldable pub enqueue_processing :
      (now id : ℕ) → TakeFinalizedMessage → World → Result EnqueueError (World × Bool)
  unfolding insert_job enqueue
  enqueue_processing now id message world = do
    chunks ← map_err invalid_manifest (Manifest.new message.chunks message.chunk_count)
    fail_if (ltb i32_max message.duration_ms) invalid_duration
    let (rows, inserted) =
        insert_job
          (new_media_job now message.take_id message.workspace_id message.recording_id message.mime
            message.duration_ms chunks)
          world.media_jobs
    let queue =
        enqueue now id process_take_kind (payload message.take_id message.workspace_id) world.jobs
    ok (record world { media_jobs = rows; jobs = if inserted then queue else world.jobs }, inserted)

  abbrev pub ready_events : MediaJob → Produced → Option RecordingOwner → List Event
  ready_events job produced none = []
  ready_events job produced (some owner) =
      recording_ready job.recording_id job.take_id job.workspace_id owner.owner_id owner.title
        produced.duration_ms produced.report.width produced.report.height
      ∷ []

  abbrev pub measured : Produced → Measured
  measured produced = record {
    duration_ms = or_max produced.duration_ms;
    width = or_zero produced.report.width;
    height = or_zero produced.report.height;
    size_bytes = produced.report.mp4_bytes;
  }

  unfoldable pub finish_ready : ℕ → JobIds → MediaJob → Produced → World → World
  unfolding record_renditions mark_done enqueue mark_ready
  finish_ready now ids job produced world =
      let (recordings, owner) =
        mark_ready now job.recording_id job.workspace_id (measured produced) world.recordings in
      let follow = payload job.take_id job.workspace_id in
      record world {
        renditions =
            record_renditions now job.workspace_id job.recording_id job.take_id
              (mp4_row job produced ∷ poster_row job produced ∷ []) world.renditions;
        media_jobs = mark_done now job.take_id job.workspace_id world.media_jobs;
        jobs =
            enqueue now ids.waveform generate_waveform_kind follow
              (enqueue now ids.sprite generate_sprite_kind follow world.jobs);
        recordings = recordings;
        outbox = world.outbox ++ ready_events job produced owner;
      }

  abbrev pub failed_events : MediaJob → Text → Option RecordingOwner → List Event
  failed_events job reason none = []
  failed_events job reason (some owner) =
      processing_failed job.recording_id job.take_id job.workspace_id owner.owner_id owner.title
        reason
      ∷ []

  unfoldable pub fail : ℕ → MediaJob → Text → Text → World → World
  unfolding mark_rejected mark_failed
  fail now job reason detail world =
      let (recordings, owner) =
        mark_failed now job.recording_id job.workspace_id world.recordings in
      record world {
        media_jobs = mark_rejected now job.take_id job.workspace_id detail world.media_jobs;
        recordings = recordings;
        outbox = world.outbox ++ failed_events job reason owner;
      }

  -- What a run's end makes of the world.
  unfoldable pub settle_run :
      ℕ
      → JobIds
      → MediaJob
      → Bool
      → Result StepError Produced × World
      → Result Text ProcessOutcome × World
  unfolding finish_ready fail
  settle_run now ids job last_attempt (ok produced, world) =
      (ok ran, finish_ready now ids job produced world)
  settle_run now ids job last_attempt (err (reject reason), world) =
      (ok rejected, fail now job reason reason world)
  settle_run now ids job last_attempt (err (retry error), world) =
      (err error, if last_attempt then fail now job gave_up error world else world)

  abbrev pub process_started :
      ℕ
      → JobIds
      → Bool
      → Steps
      → MediaJob
      → List MediaJob × Bool
      → World
      → Result Text ProcessOutcome × World
  process_started now ids last_attempt steps job (rows, false) world = (ok already_finished, world)
  process_started now ids last_attempt steps job (rows, true) world =
      settle_run now ids job last_attempt
        (run_in_scratch show_id now job steps (record world { media_jobs = rows }))

  abbrev pub process_found :
      ℕ → JobIds → Bool → Steps → Option MediaJob → World → Result Text ProcessOutcome × World
  process_found now ids last_attempt steps none world = (ok no_such_take, world)
  process_found now ids last_attempt steps (some job) world =
      process_started now ids last_attempt steps job
        (mark_running now job.take_id job.workspace_id world.media_jobs) world

  unfoldable pub process_take :
      (now : ℕ)
      → JobIds
      → (take_id workspace : ℕ) → Bool
      → Steps
      → World
      → Result Text ProcessOutcome × World
  unfolding find_job mark_running run_in_scratch settle_run
  process_take now ids take_id workspace last_attempt steps world =
      process_found now ids last_attempt steps (find_job take_id workspace world.media_jobs) world
