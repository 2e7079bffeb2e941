-- ===== src/Ingest/Finalizing.antt =====
-- `IngestService::finalize` (crates/ingest/src/app/service.rs).
pub mod Success
pub mod Retry
pub mod Refused
pub mod Late
mod Examples
use sintade.Prelude.{
  ℕ, ◌+◌, ◌-◌, ◌*◌, Bool, true, false, not, ◌&&◌, ◌||◌, List, [], ◌∷◌, ◌++◌, Option, none, some,
  map, ltb, leb, ◌==◌, if◌then◌else◌, any, filter, length, range, Result, ok, err, ◌>>=◌, ◌>>◌,
  fail_if, ok_or, map_err, map_ok, filter_map,
}
use sintade.Prelude.Text.{Text, text_eq}
use sintade.Catalog.Recordings.{
  Recordings, insert_recording, count_active_recordings, mark_processing, mark_abandoned,
}
use sintade.Catalog.Titles.{TitleError, parse_title}
use sintade.Ingest.Digest.{DigestError, parse_hex, from_bytes, to_hex}
use sintade.Ingest.Chunks.{
  MimeTypeError, parse_mime, max_chunk_index, i32_max, ChunkRangeError, chunk_range, ChunkSizeError,
  chunk_size, chunk_key, chunk_prefix,
}
use sintade.Ingest.Tables.{
  Sources, Take, Chunk, FinalizedChunk, TakeFinalized, Db, UploadableTake, find_take_for_owner,
  insert_take, receipts, received_indexes, find_chunk, insert_chunk, mark_take_finalized,
  abandon_idle_takes, purgeable_takes, delete_chunks, head, delete_prefix,
}
use sintade.Ingest.Walk.{walk, no_missing}
use sintade.Ingest.Service.{
  entitlements, FinalizeTake, FinalizeOutcome, FinalizeError, invalid_chunk_count, invalid_duration,
  recording_closed, duration_exceeded, missing_chunks, unexpected_chunks, count_mismatch,
  already_finalized,
}

-- `map(to_hex).unwrap_or_default()`.
abbrev pub hex_or_empty : Option (List ℕ) → Text
hex_or_empty none = []
hex_or_empty (some digest) = to_hex digest

abbrev pub is_nonempty : List ℕ → Bool
is_nonempty [] = false
is_nonempty (_ ∷ _) = true

module _ (show_id : ℕ → Text) where
  -- One entry of the event's manifest.
  abbrev pub finalized_chunk : FinalizeTake → UploadableTake → Chunk → FinalizedChunk
  finalized_chunk request t c = record {
    idx = c.idx;
    key = chunk_key show_id request.workspace_id t.recording_id request.take_id c.idx t.mime_type;
    size_bytes = c.size_bytes;
    sha256 = hex_or_empty (from_bytes c.sha256);
  }

  abbrev pub manifest : FinalizeTake → UploadableTake → Db → List FinalizedChunk
  manifest request t db = map (finalized_chunk request t) (
      filter (λ c. ltb c.idx request.chunk_count)
        (receipts request.take_id request.workspace_id db))

  abbrev pub finalized_event : FinalizeTake → UploadableTake → Db → TakeFinalized
  finalized_event request t db = record {
    take_id = request.take_id;
    recording_id = t.recording_id;
    workspace_id = request.workspace_id;
    chunk_count = request.chunk_count;
    duration_ms = request.duration_ms;
    mime = t.mime_type;
    chunks = manifest request t db;
  }

  -- Marking the take and the recording, and the event, in the transaction of `finalize`.
  unfoldable pub commit_final :
      ℕ → FinalizeTake → UploadableTake → Db → Result FinalizeError (FinalizeOutcome × Db)
  commit_final now request t db = do
    let marked = mark_take_finalized now request.take_id request.workspace_id db
    let (rows, moved) =
        mark_processing now t.recording_id request.workspace_id request.duration_ms
          marked.recordings
    fail_if (not moved) recording_closed
    ok (
      FinalizeOutcome.finalized t.recording_id,
      record marked {
        recordings = rows;
        outbox = marked.outbox ++ finalized_event request t db ∷ [];
      },
    )

  -- A take that was not finalized before: every expected chunk must be there, and no other.
  unfoldable pub finalize_open :
      ℕ → FinalizeTake → UploadableTake → Db → Result FinalizeError (FinalizeOutcome × Db)
  finalize_open now request t db = do
    let received = received_indexes request.take_id request.workspace_id db
    let unexpected = filter (λ idx. leb request.chunk_count idx) received
    fail_if (is_nonempty unexpected) (unexpected_chunks unexpected)
    let missing = walk request.chunk_count 0 received no_missing
    fail_if (ltb 0 missing.total) (missing_chunks missing.listed missing.total)
    commit_final now request t db

  -- A take that was finalized before: a retry, or another number of chunks.
  unfoldable pub finalize_again :
      FinalizeTake → UploadableTake → Db → Result FinalizeError (FinalizeOutcome × Db)
  finalize_again request t db =
      let finalized_with = length (received_indexes request.take_id request.workspace_id db) in
      if finalized_with == request.chunk_count
      then ok (already_finalized t.recording_id, db)
      else err (count_mismatch finalized_with)

  unfoldable pub finalize : ℕ → FinalizeTake → Db → Result FinalizeError (FinalizeOutcome × Db)
  finalize now request db = do
    fail_if (request.chunk_count == 0 || ltb (max_chunk_index + 1) request.chunk_count)
        invalid_chunk_count
    fail_if (ltb i32_max request.duration_ms) invalid_duration
    let max_ms = (entitlements request.workspace_id).max_duration_ms
    fail_if (ltb max_ms request.duration_ms) (duration_exceeded max_ms)
    t ←
        ok_or (find_take_for_owner request.take_id request.workspace_id request.user_id db)
          FinalizeError.not_found
    if t.finalized then finalize_again request t db else finalize_open now request t db
