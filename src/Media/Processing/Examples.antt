-- ===== src/Media/Processing/Examples.antt =====
-- A take of one chunk that is processed, fails, and is tried again.
use sintade.Prelude.{ℕ, ◌≡◌, refl, true, false, List, [], ◌∷◌, none, some, ok, err, replicate}
use sintade.Prelude.Sort.{sort_by}
use sintade.Prelude.Text.{Text, codes, trim, decimal}
use sintade.Catalog.Recordings.{Recording, State, processing, failed, mark_ready, reopen_failed}
use sintade.Platform.Jobs.{enqueue}
use sintade.Media.Manifest.{ManifestChunk}
use sintade.Media.Manifest
use sintade.Media.Processing.{
  MediaJob, World, running, recording_ready, find_job, new_media_job, process_take_kind,
}
use sintade.Media.Processing.Run.{reject, retry, Steps}
use sintade.Media.Processing.Retry.{recording_not_failed, retry_processing}
use sintade.Media.Processing.Service.{
  TakeFinalizedMessage, JobIds, enqueue_processing, process_take,
}
use sintade.Media.Processing.Finished.{IsSettled, process_take-IsSettled, process_take-again}
use sintade.Media.Processing.Retried.{enqueue_processing-again, retry_processing-again}
use sintade.Ingest.Digest.{parse_sha256, parse_sha256_pairs, hex_digit}

abbrev shown : ℕ → Text
shown n = b'i' ∷ decimal n

abbrev payload : ℕ → ℕ → ℕ
payload take_id workspace = take_id

abbrev demo : State → Recording
demo state = record {
  id = 1;
  workspace_id = 7;
  owner_id = 100;
  title = codes "Demo";
  state = state;
  duration_ms = none;
  width = none;
  height = none;
  size_bytes = none;
  current_take = 11;
  trashed_at = none;
  created_at = 10;
  updated_at = 10;
}

abbrev chunk : ManifestChunk
chunk = record { idx = 0; key = codes "c0"; size_bytes = 5; sha256 = replicate 64 b'0' }

abbrev message : TakeFinalizedMessage
message = record {
  workspace_id = 7;
  take_id = 11;
  recording_id = 1;
  chunk_count = 1;
  duration_ms = 4000;
  mime = codes "video/webm";
  chunks = chunk ∷ [];
}

abbrev with_jobs : State → List MediaJob → World
with_jobs state media_jobs = record {
  media_jobs = media_jobs;
  renditions = [];
  jobs = [];
  recordings = demo state ∷ [];
  outbox = [];
}

abbrev job : MediaJob
job = new_media_job 20 11 7 1 (codes "video/webm") 4000 (chunk ∷ [])

abbrev waiting : World
waiting = with_jobs processing (job ∷ [])

abbrev ids : JobIds
ids = record { sprite = 51; waveform = 52 }

abbrev good : Steps
good = record {
  assembled = ok 5;
  encoded = ok (record {
    duration_ms = some 3900;
    width = 640;
    height = 360;
    mp4_bytes = 90;
    poster_bytes = 9;
  });
  removed = ok tt;
}

abbrev bad : Steps
bad = record {
  assembled = err (retry (codes "the store is down"));
  encoded = err (reject (codes "no video"));
  removed = ok tt;
}

ready_event :
    (process_take shown payload 30 ids 11 7 false good waiting).1.outbox
    ≡ recording_ready 1 11 7 100 (codes "Demo") 3900 640 360 ∷ []
unfolding process_take Manifest.new mark_ready trim Manifest.check_chunks sort_by parse_sha256
    parse_sha256_pairs hex_digit
ready_event = refl

job_found : find_job 11 7 waiting.media_jobs ≡ some job
unfolding find_job
job_found = refl

process_take-IsSettled_example :
    IsSettled 11 7 1 (process_take shown payload 30 ids 11 7 true bad waiting).1
process_take-IsSettled_example =
    process_take-IsSettled shown payload 30 ids bad waiting job job_found refl

process_take-again_example :
    let after = (process_take shown payload 30 ids 11 7 true good waiting).1 in
    (process_take shown payload 90 ids 11 7 true bad after).1 ≡ after
process_take-again_example =
    process_take-again shown payload 30 90 ids ids true good bad waiting job job_found refl

abbrev empty_queue : World
empty_queue = with_jobs processing []

abbrev enqueued : World
enqueued = record waiting { jobs = enqueue 20 40 process_take_kind 11 [] }

first_delivery : enqueue_processing shown payload 20 40 message empty_queue ≡ ok (enqueued, true)
unfolding enqueue_processing Manifest.new Manifest.check_chunks sort_by parse_sha256
    parse_sha256_pairs hex_digit
first_delivery = refl

enqueue_processing-again_example :
    enqueue_processing shown payload 25 41 message enqueued ≡ ok (enqueued, false)
enqueue_processing-again_example =
    enqueue_processing-again shown payload 20 25 40 41 message empty_queue enqueued true
      first_delivery

abbrev gave_up : World
gave_up = with_jobs failed (record job { state = running; attempts = 5 } ∷ [])

abbrev reopened_world : World
reopened_world = record {
  media_jobs = job ∷ [];
  renditions = [];
  jobs = enqueue 60 61 process_take_kind 11 [];
  recordings = record (demo processing) { updated_at = 60 } ∷ [];
  outbox = [];
}

first_click : retry_processing payload 60 61 7 1 gave_up ≡ ok reopened_world
unfolding retry_processing reopen_failed sort_by
first_click = refl

retry_processing-again_example :
    retry_processing payload 62 63 7 1 reopened_world ≡ err recording_not_failed
retry_processing-again_example =
    retry_processing-again payload 60 62 61 63 7 1 gave_up reopened_world first_click
