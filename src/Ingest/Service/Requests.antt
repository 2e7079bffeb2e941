-- ===== src/Ingest/Service/Requests.antt =====
-- What the calls of `IngestService` take, return and refuse (crates/ingest/src/app/service.rs),
-- and what the free tier allows (crates/billing).
use sintade.Prelude.{ℕ, ◌*◌, Bool, List, Option}
use sintade.Prelude.Text.{Text}
use sintade.Catalog.Titles.{TitleError}
use sintade.Ingest.Digest.{DigestError}
use sintade.Ingest.Chunks.{MimeTypeError, ChunkRangeError, ChunkSizeError}
use sintade.Ingest.Tables.{Sources}

-- `FREE_TIER`: what every workspace gets (crates/billing/src/domain/mod.rs).
pub record Entitlements : Type 0 where
  pub max_recordings : ℕ
  pub max_duration_ms : ℕ
  pub max_resolution : ℕ
  pub seats : ℕ

abbrev pub free_tier : Entitlements
free_tier = record {
  max_recordings = 50;
  max_duration_ms = 10 * 60 * 1000;
  max_resolution = 1080;
  seats = 1;
}

-- `BillingService::entitlements`.
abbrev pub entitlements : ℕ → Entitlements
entitlements workspace = free_tier

pub record StartRecording : Type 0 where
  pub workspace_id : ℕ
  pub owner_id : ℕ
  pub title : Option Text
  pub mime_type : Text
  pub sources : Sources

pub record StartedRecording : Type 0 where
  pub recording_id : ℕ
  pub take_id : ℕ
  pub max_duration_ms : ℕ

pub data StartRecordingError : Type 0 where
  invalid_title : TitleError → StartRecordingError
  invalid_mime_type : MimeTypeError → StartRecordingError
  limit_reached : ℕ → StartRecordingError

pub record PresignChunks : Type 0 where
  pub workspace_id : ℕ
  pub user_id : ℕ
  pub take_id : ℕ
  pub first_idx : ℕ
  pub count : ℕ

pub data PresignError : Type 0 where
  not_found finalized : PresignError
  invalid_range : ChunkRangeError → PresignError

pub record AckChunk : Type 0 where
  pub workspace_id : ℕ
  pub user_id : ℕ
  pub take_id : ℕ
  pub idx : ℕ
  pub size_bytes : ℕ
  pub sha256 : Text

pub data AckOutcome : Type 0 where
  acked already_acked : AckOutcome

pub data AckError : Type 0 where
  not_found finalized index_too_large : AckError
  mismatch : ℕ → AckError
  invalid_digest : DigestError → AckError
  invalid_size : ChunkSizeError → AckError
  not_uploaded : ℕ → AckError
  size_mismatch : ℕ → ℕ → ℕ → AckError

-- What the read part of an ack ends in: an answer, or a new receipt to insert.
pub data Prepared : Type 0 where
  answered : AckOutcome → Prepared
  fresh : ℕ → List ℕ → Prepared

pub record ReceivedChunk : Type 0 where
  pub idx : ℕ
  pub size_bytes : ℕ
  pub sha256 : Text

pub record TakeStatus : Type 0 where
  pub recording_id : ℕ
  pub finalized : Bool
  pub received : List ℕ
  pub chunks : List ReceivedChunk

pub record FinalizeTake : Type 0 where
  pub workspace_id : ℕ
  pub user_id : ℕ
  pub take_id : ℕ
  pub chunk_count : ℕ
  pub duration_ms : ℕ

pub data FinalizeOutcome : Type 0 where
  finalized already_finalized : ℕ → FinalizeOutcome

pub data FinalizeError : Type 0 where
  not_found invalid_chunk_count invalid_duration recording_closed : FinalizeError
  duration_exceeded : ℕ → FinalizeError
  missing_chunks : List ℕ → ℕ → FinalizeError
  unexpected_chunks : List ℕ → FinalizeError
  count_mismatch : ℕ → FinalizeError

-- What one sweep did.
pub record SweepReport : Type 0 where
  pub abandoned : ℕ
  pub purged_takes : ℕ

abbrev pub abandon_after : ℕ
abandon_after = 24 * 60 * 60

abbrev pub purge_after : ℕ
purge_after = 7 * 24 * 60 * 60

abbrev pub sweep_batch : ℕ
sweep_batch = 500
