-- ===== src/Ingest/Sweeping.antt =====
-- `IngestService::sweep_stale_uploads` (crates/ingest/src/app/service.rs).
pub mod Selection
pub mod Safety
mod Examples
use sintade.Prelude.{
  ℕ, ◌+◌, ◌-◌, ◌*◌, Bool, true, false, not, ◌&&◌, ◌||◌, List, [], ◌∷◌, ◌++◌, Option, none, some,
  map, ltb, leb, ◌==◌, if◌then◌else◌, any, filter, length, range, Result, ok, err, ◌>>=◌, ◌>>◌,
  fail_if, ok_or, map_err, map_ok, filter_map,
}
use sintade.Prelude.Text.{Text, text_eq}
use sintade.Catalog.Recordings.{
  Recordings, insert_recording, count_active_recordings, mark_processing, mark_abandoned,
}
use sintade.Catalog.Titles.{TitleError, parse_title}
use sintade.Ingest.Digest.{DigestError, parse_hex, from_bytes, to_hex}
use sintade.Ingest.Chunks.{
  MimeTypeError, parse_mime, max_chunk_index, i32_max, ChunkRangeError, chunk_range, ChunkSizeError,
  chunk_size, chunk_key, chunk_prefix,
}
use sintade.Ingest.Tables.{
  Sources, Take, Chunk, FinalizedChunk, TakeFinalized, Db, UploadableTake, find_take_for_owner,
  insert_take, receipts, received_indexes, find_chunk, insert_chunk, mark_take_finalized,
  abandon_idle_takes, purgeable_takes, delete_chunks, head, delete_prefix,
}
use sintade.Ingest.Service.{SweepReport, abandon_after, purge_after, sweep_batch}

abbrev pub targets_of : List Take → List (ℕ × ℕ)
targets_of = map λ t. (t.recording_id, t.workspace_id)

-- The first transaction of the sweep: idle takes are marked, their recordings abandoned. With
-- no idle take no recording is named, so the call that the code skips then changes nothing.
unfoldable pub abandon_idle : ℕ → Db → ℕ × Db
abandon_idle now db =
    let (idle, marked) = abandon_idle_takes now (now - abandon_after) sweep_batch db in
    let (rows, changed) = mark_abandoned now (targets_of idle) marked.recordings in
    (length changed, record marked { recordings = rows })

module _ (show_id : ℕ → Text) where
  -- One expired take: its chunks leave storage, then the table.
  unfoldable pub purge_take : Take → Db → Db
  purge_take t db = delete_chunks t.id t.workspace_id (record db {
    objects = delete_prefix (chunk_prefix show_id t.workspace_id t.recording_id t.id) db.objects;
  })

  unfoldable pub purge_takes : List Take → Db → Db
  purge_takes [] db = db
  purge_takes (t ∷ ts) db = purge_takes ts (purge_take t db)

  -- The times of the database are numbers of seconds that are not smaller than `purge_after`.
  unfoldable pub sweep_stale_uploads : ℕ → Db → SweepReport × Db
  unfolding abandon_idle purge_takes
  sweep_stale_uploads now db =
      let (abandoned, db') = abandon_idle now db in
      let expired = purgeable_takes (now - purge_after) sweep_batch db' in
      (record { abandoned = abandoned; purged_takes = length expired }, purge_takes expired db')
