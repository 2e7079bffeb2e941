-- ===== src/Ingest/Service.antt =====
-- `IngestService` (crates/ingest/src/app/service.rs), call by call, with the free tier of
-- crates/billing. A call takes the state that it reads and returns the state that it leaves; a
-- call that fails leaves the state as it was, as its transaction is rolled back. The uuids that a
-- call makes, the clock and the display of a uuid are arguments. The statements and the storage
-- calls are taken to succeed.
mod Requests
pub use Requests.*
pub mod Start
pub mod Receipts
pub mod Ack
pub mod Again
mod Examples
use sintade.Prelude.{
  ℕ, ◌+◌, ◌-◌, ◌*◌, Bool, true, false, not, ◌&&◌, ◌||◌, List, [], ◌∷◌, ◌++◌, Option, none, some,
  map, ltb, leb, ◌==◌, if◌then◌else◌, any, filter, length, range, Result, ok, err, ◌>>=◌, ◌>>◌,
  fail_if, ok_or, map_err, map_ok, filter_map,
}
use sintade.Prelude.Text.{Text, text_eq}
use sintade.Catalog.Recordings.{
  Recordings, insert_recording, count_active_recordings, mark_processing, mark_abandoned,
}
use sintade.Catalog.Titles.{TitleError, parse_title}
use sintade.Ingest.Digest.{DigestError, parse_hex, from_bytes, to_hex}
use sintade.Ingest.Chunks.{
  MimeTypeError, parse_mime, max_chunk_index, i32_max, ChunkRangeError, chunk_range, ChunkSizeError,
  chunk_size, chunk_key, chunk_prefix,
}
use sintade.Ingest.Tables.{
  Sources, Take, Chunk, FinalizedChunk, TakeFinalized, Db, UploadableTake, find_take_for_owner,
  insert_take, receipts, received_indexes, find_chunk, insert_chunk, mark_take_finalized,
  abandon_idle_takes, purgeable_takes, delete_chunks, head, delete_prefix,
}
use sintade.Ingest.Walk.{walk, no_missing}

-- The rows that a start adds, with the new ids.
abbrev pub started_rows : ℕ → ℕ → ℕ → Text → Text → StartRecording → Db → Db
started_rows now recording_id take_id title mime request db =
    insert_take now take_id request.workspace_id recording_id mime request.sources (record db {
      recordings =
          insert_recording now recording_id request.workspace_id request.owner_id title take_id
            db.recordings;
    })

unfoldable pub start_recording :
    ℕ → ℕ → ℕ → StartRecording → Db → Result StartRecordingError (StartedRecording × Db)
start_recording now recording_id take_id request db = do
  title ← map_err invalid_title (parse_title request.title)
  mime ← map_err invalid_mime_type (parse_mime request.mime_type)
  let limits = entitlements request.workspace_id
  let active = count_active_recordings request.workspace_id db.recordings
  fail_if (leb limits.max_recordings active) (limit_reached limits.max_recordings)
  ok (
    record {
      recording_id = recording_id;
      take_id = take_id;
      max_duration_ms = limits.max_duration_ms;
    },
    started_rows now recording_id take_id title mime request db,
  )

-- `from_bytes(...) == Some(digest)`.
abbrev pub matches : Option (List ℕ) → List ℕ → Bool
matches none digest = false
matches (some bytes) digest = text_eq bytes digest

-- A receipt against the claim of a request: the same size and hash, or a conflict.
unfoldable pub compare_receipt : AckChunk → ℕ → List ℕ → Chunk → Result AckError AckOutcome
compare_receipt request size digest receipt =
    if receipt.size_bytes == size && matches (from_bytes receipt.sha256) digest
    then ok already_acked
    else err (mismatch request.idx)

module _ (show_id : ℕ → Text) where
  -- The URLs are made by the object store, which is the argument `presign_put`.
  unfoldable pub presign_chunks :
      {Url : Type 0} (presign_put : Text → Url)
      → PresignChunks
      → Db
      → Result PresignError (List (ℕ × Url))
  presign_chunks presign_put request db = do
    span ← map_err invalid_range (chunk_range request.first_idx request.count)
    t ←
        ok_or (find_take_for_owner request.take_id request.workspace_id request.user_id db)
          PresignError.not_found
    fail_if t.finalized PresignError.finalized
    ok (
        map
          (λ idx. (
            idx,
            presign_put (
                chunk_key show_id request.workspace_id t.recording_id request.take_id idx
                  t.mime_type),
          ))
          (range span.0 (span.1 - span.0)))

  -- The new receipt, if the object is stored with the claimed size.
  unfoldable pub check_stored :
      AckChunk → ℕ → List ℕ → UploadableTake → Db → Result AckError Prepared
  check_stored request size digest t db = do
    fail_if t.finalized AckError.finalized
    stored ←
        ok_or
          (head
            (chunk_key show_id request.workspace_id t.recording_id request.take_id request.idx
              t.mime_type)
            db.objects)
          (not_uploaded request.idx)
    fail_if (not (stored == size)) (size_mismatch request.idx stored size)
    ok (fresh size digest)

  -- An index that has a receipt is compared, any other is checked against storage.
  abbrev pub answer :
      Option Chunk → AckChunk → ℕ → List ℕ → UploadableTake → Db → Result AckError Prepared
  answer (some receipt) request size digest t db =
      map_ok answered (compare_receipt request size digest receipt)
  answer none request size digest t db = check_stored request size digest t db

  -- `ack_chunk` up to the insert: it only reads.
  unfoldable pub prepare_ack : AckChunk → Db → Result AckError Prepared
  prepare_ack request db = do
    fail_if (ltb max_chunk_index request.idx) index_too_large
    digest ← map_err invalid_digest (parse_hex request.sha256)
    size ← map_err invalid_size (chunk_size request.size_bytes)
    t ←
        ok_or (find_take_for_owner request.take_id request.workspace_id request.user_id db)
          AckError.not_found
    answer (find_chunk request.take_id request.workspace_id request.idx db) request size digest t db

-- `ack_chunk` from the insert on. The state may be another one than the read part saw: where the
-- insert finds the index taken, a concurrent ack got there first.
unfoldable pub record_ack : ℕ → AckChunk → Prepared → Db → Result AckError AckOutcome × Db
record_ack now request (answered outcome) db = (ok outcome, db)
record_ack now request (fresh size digest) db =
    let (db', inserted) =
      insert_chunk now request.take_id request.workspace_id request.idx size digest db in
    if inserted then (ok acked, db') else (
      (do
        receipt ←
            ok_or (find_chunk request.take_id request.workspace_id request.idx db')
              AckError.not_found
        compare_receipt request size digest receipt),
      db',
    )

-- Nothing is recorded where the read part refused.
abbrev pub then_record :
    ℕ → AckChunk → Result AckError Prepared → Db → Result AckError AckOutcome × Db
then_record now request (ok prepared) db = record_ack now request prepared db
then_record now request (err e) db = (err e, db)

module _ (show_id : ℕ → Text) where
  -- The call with nothing in between.
  unfoldable pub ack_chunk : ℕ → AckChunk → Db → Result AckError AckOutcome × Db
  ack_chunk now request db = then_record now request (prepare_ack show_id request db) db

  abbrev received_chunk : Chunk → Option ReceivedChunk
  received_chunk c = elim (from_bytes c.sha256) [
    | none ↦ none
    | some digest ↦ some (record { idx = c.idx; size_bytes = c.size_bytes; sha256 = to_hex digest })
  ]

  unfoldable pub take_status : ℕ → ℕ → ℕ → Db → Option TakeStatus
  take_status workspace user take_id db = elim (find_take_for_owner take_id workspace user db) [
    | none ↦ none
    | some t ↦
        let chunks = filter_map received_chunk (receipts take_id workspace db) in
        some (record {
          recording_id = t.recording_id;
          finalized = t.finalized;
          received = map (λ c. c.idx) chunks;
          chunks = chunks;
        })
  ]
