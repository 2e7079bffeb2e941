-- ===== src/Ingest/Scenario.antt =====
-- A take of two chunks, for the tests of ingest.
use sintade.Prelude.{
  ℕ, zero, suc, ◌≤◌, All, refl, true, false, List, [], ◌∷◌, none, some, replicate, arith,
}
use sintade.Prelude.Text.{Text, codes}
use sintade.Catalog.Recordings.{Recording, recording}
use sintade.Ingest.Digest.Laws.{IsByte, IsDigest}
use sintade.Ingest.Chunks.{max_chunk_index, chunk_key}
use sintade.Ingest.Chunks.Keys.{ShowsIds}
use sintade.Ingest.Tables.{Take, Chunk, Db}
use sintade.Ingest.Tables.Invariant.{IsTable, IsReceipt}
use sintade.Ingest.Service.{StartRecording, AckChunk, FinalizeTake}

-- A display of ids: 36 characters, the id itself the first of them.
abbrev pub shown : ℕ → Text
shown n = n ∷ replicate 35 48

pub shown-ShowsIds : ShowsIds shown
shown-ShowsIds = record { injective = λ a b h. cc; long = λ a. refl }

abbrev pub webm : Text
webm = codes "video/webm"

abbrev pub hash : Text
hash = replicate 64 b'0'

abbrev pub digest : List ℕ
digest = replicate 32 0

abbrev pub demo : Recording
demo = record {
  id = 1;
  workspace_id = 7;
  owner_id = 100;
  title = codes "Demo";
  state = recording;
  duration_ms = none;
  width = none;
  height = none;
  size_bytes = none;
  current_take = 11;
  trashed_at = none;
  created_at = 10;
  updated_at = 10;
}

abbrev pub demo_take : Take
demo_take = record {
  id = 11;
  workspace_id = 7;
  recording_id = 1;
  mime_type = webm;
  sources = record { system_audio = true; mic = false; camera = false };
  finalized_at = none;
  abandoned_at = none;
  created_at = 10;
}

-- Two chunks of 500 bytes are in storage.
abbrev pub started : Db
started = record {
  recordings = demo ∷ [];
  takes = demo_take ∷ [];
  chunks = [];
  objects = (chunk_key shown 7 1 11 0 webm, 500) ∷ (chunk_key shown 7 1 11 1 webm, 500) ∷ [];
  outbox = [];
}

abbrev pub receipt : ℕ → Chunk
receipt idx = record {
  take_id = 11;
  workspace_id = 7;
  idx = idx;
  size_bytes = 500;
  sha256 = digest;
  received_at = 20;
}

-- Both of them acknowledged, the second one first.
abbrev pub uploaded : Db
uploaded = record started { chunks = receipt 1 ∷ receipt 0 ∷ [] }

abbrev pub start_request : StartRecording
start_request = record {
  workspace_id = 7;
  owner_id = 100;
  title = some (codes "Demo");
  mime_type = webm;
  sources = record { system_audio = true; mic = false; camera = false };
}

abbrev pub ack_request : ℕ → AckChunk
ack_request idx = record {
  workspace_id = 7;
  user_id = 100;
  take_id = 11;
  idx = idx;
  size_bytes = 500;
  sha256 = hash;
}

abbrev pub finalize_request : FinalizeTake
finalize_request = record {
  workspace_id = 7;
  user_id = 100;
  take_id = 11;
  chunk_count = 2;
  duration_ms = 5000;
}

zero_bytes : (n : ℕ) → All IsByte (replicate n 0)
zero_bytes zero = tt
zero_bytes (suc n) = (omega arith, zero_bytes n)

pub digest-IsDigest : IsDigest digest
digest-IsDigest = record { bytes_long = refl; each = zero_bytes 32 }

receipt-IsReceipt : (idx : ℕ) → idx ≤ max_chunk_index → IsReceipt (receipt idx)
receipt-IsReceipt idx h = record {
  idx_small = h;
  size_pos = omega arith;
  size_small = omega arith;
  digest = digest-IsDigest;
}

pub started-IsTable : IsTable started.chunks
started-IsTable = record { keys = tt; each = tt }

pub uploaded-IsTable : IsTable uploaded.chunks
uploaded-IsTable = record {
  keys = ((refl, tt), (tt, tt));
  each = (receipt-IsReceipt 1 (omega arith), (receipt-IsReceipt 0 (omega arith), tt));
}
