-- ===== src/Media/Processing/Retry.antt =====
-- Retrying a recording that failed (crates/media/src/app/retry.rs).
use sintade.Prelude.{ℕ, List, Option, none, some, Result, ok, err}
use sintade.Platform.Jobs.{enqueue}
use sintade.Catalog.Recordings.{Reopened, reopened, not_failed, not_found, reopen_failed}
use sintade.Media.Processing.{MediaJob, World, process_take_kind, requeue_latest_job}

pub data RetryError : Type 0 where
  recording_not_found recording_not_failed : RetryError

module _ (payload : ℕ → ℕ → ℕ) where
  abbrev pub retried :
      (now id workspace : ℕ) → World → List MediaJob × Option ℕ → Result RetryError World
  retried now id workspace world (rows, none) = err recording_not_failed
  retried now id workspace world (rows, some take_id) = ok (record world {
    media_jobs = rows;
    jobs = enqueue now id process_take_kind (payload take_id workspace) world.jobs;
  })

  abbrev pub retry_reopened :
      (now id workspace recording : ℕ) → World → Reopened → Result RetryError World
  retry_reopened now id workspace recording world not_found = err recording_not_found
  retry_reopened now id workspace recording world not_failed = err recording_not_failed
  retry_reopened now id workspace recording world reopened =
      retried now id workspace world (requeue_latest_job recording workspace world.media_jobs)

  -- `RetryService::retry_processing`; an error rolls the transaction back.
  unfoldable pub retry_processing :
      (now id workspace recording : ℕ) → World → Result RetryError World
  unfolding reopen_failed requeue_latest_job enqueue
  retry_processing now id workspace recording world =
      let (recordings, outcome) = reopen_failed now recording workspace world.recordings in
      retry_reopened now id workspace recording (record world { recordings = recordings }) outcome
