-- ===== src/Ingest/Tables.antt =====
-- The tables of ingest and the statements on them (crates/ingest/src/infra/repo.rs), beside the
-- recordings of the catalog, the objects in storage and the outbox.
pub mod Invariant
use sintade.Prelude.{
  ℕ, ◌+◌, ◌<◌, Bool, true, false, not, ◌&&◌, ◌||◌, List, [], ◌∷◌, ◌++◌, Option, none, some, map,
  ltb, leb, ◌==◌, if◌then◌else◌, any, filter, find, take, max, update_where, delete_where,
}
use sintade.Prelude.Sort.{sort_by}
use sintade.Prelude.Text.{Text, text_eq, starts_with}
use sintade.Catalog.Recordings.{Recording, Recordings, is_none}

pub record Sources : Type 0 where
  pub system_audio : Bool
  pub mic : Bool
  pub camera : Bool

pub record Take : Type 0 where
  pub id : ℕ
  pub workspace_id : ℕ
  pub recording_id : ℕ
  pub mime_type : Text
  pub sources : Sources
  pub finalized_at : Option ℕ
  pub abandoned_at : Option ℕ
  pub created_at : ℕ

-- A row of `chunks`: a receipt for an uploaded chunk.
pub record Chunk : Type 0 where
  pub take_id : ℕ
  pub workspace_id : ℕ
  pub idx : ℕ
  pub size_bytes : ℕ
  pub sha256 : List ℕ
  pub received_at : ℕ

pub record FinalizedChunk : Type 0 where
  pub idx : ℕ
  pub key : Text
  pub size_bytes : ℕ
  pub sha256 : Text

-- `TakeFinalized` (crates/ingest/src/events.rs).
pub record TakeFinalized : Type 0 where
  pub take_id : ℕ
  pub recording_id : ℕ
  pub workspace_id : ℕ
  pub chunk_count : ℕ
  pub duration_ms : ℕ
  pub mime : Text
  pub chunks : List FinalizedChunk

-- All that the calls of ingest read and write. `objects` has a key and a size for each object.
pub record Db : Type 0 where
  pub recordings : Recordings
  pub takes : List Take
  pub chunks : List Chunk
  pub objects : List (Text × ℕ)
  pub outbox : List TakeFinalized

pub record UploadableTake : Type 0 where
  pub recording_id : ℕ
  pub mime_type : Text
  pub finalized : Bool

abbrev pub is_take : ℕ → ℕ → Take → Bool
is_take take_id workspace t = t.id == take_id && t.workspace_id == workspace

-- The join with `recordings`, with its owner.
abbrev pub belongs_to : ℕ → Recordings → Take → Bool
belongs_to owner recordings t =
    any (λ r. r.id == t.recording_id && r.workspace_id == t.workspace_id && r.owner_id == owner)
      recordings

abbrev pub uploadable : Option Take → Option UploadableTake
uploadable none = none
uploadable (some t) = some (record {
  recording_id = t.recording_id;
  mime_type = t.mime_type;
  finalized = not (is_none t.finalized_at);
})

-- Also `lock_take_for_owner`, which locks the row besides.
unfoldable pub find_take_for_owner : ℕ → ℕ → ℕ → Db → Option UploadableTake
find_take_for_owner take_id workspace owner db =
    uploadable
      (find (λ t. is_take take_id workspace t && belongs_to owner db.recordings t) db.takes)

unfoldable pub insert_take : ℕ → ℕ → ℕ → ℕ → Text → Sources → Db → Db
insert_take now take_id workspace recording mime_type sources db = record db {
  takes =
      db.takes
      ++ record {
        id = take_id;
        workspace_id = workspace;
        recording_id = recording;
        mime_type = mime_type;
        sources = sources;
        finalized_at = none;
        abandoned_at = none;
        created_at = now;
      }
        ∷ [];
}

abbrev pub is_chunk_of : ℕ → ℕ → Chunk → Bool
is_chunk_of take_id workspace c = c.take_id == take_id && c.workspace_id == workspace

abbrev pub idx_before : Chunk → Chunk → Bool
idx_before a b = ltb a.idx b.idx

-- Every receipt of a take, in order of its index.
unfoldable pub receipts : ℕ → ℕ → Db → List Chunk
receipts take_id workspace db =
    sort_by idx_before (filter (is_chunk_of take_id workspace) db.chunks)

unfoldable pub received_indexes : ℕ → ℕ → Db → List ℕ
unfolding receipts
received_indexes take_id workspace db = map (λ c. c.idx) (receipts take_id workspace db)

abbrev pub is_chunk : ℕ → ℕ → ℕ → Chunk → Bool
is_chunk take_id workspace idx c = is_chunk_of take_id workspace c && c.idx == idx

unfoldable pub find_chunk : ℕ → ℕ → ℕ → Db → Option Chunk
find_chunk take_id workspace idx db = find (is_chunk take_id workspace idx) db.chunks

-- The primary key of `chunks`.
abbrev pub has_key : ℕ → ℕ → Chunk → Bool
has_key take_id idx c = c.take_id == take_id && c.idx == idx

-- `ON CONFLICT (take_id, idx) DO NOTHING`; whether a row was inserted.
unfoldable pub insert_chunk : ℕ → ℕ → ℕ → ℕ → ℕ → List ℕ → Db → Db × Bool
insert_chunk now take_id workspace idx size sha256 db =
    if any (has_key take_id idx) db.chunks then (db, false) else (
      record db {
        chunks =
            db.chunks
            ++ record {
              take_id = take_id;
              workspace_id = workspace;
              idx = idx;
              size_bytes = size;
              sha256 = sha256;
              received_at = now;
            }
              ∷ [];
      },
      true,
    )

unfoldable pub mark_take_finalized : ℕ → ℕ → ℕ → Db → Db
mark_take_finalized now take_id workspace db = record db {
  takes =
      update_where (is_take take_id workspace) (λ t. record t { finalized_at = some now }) db.takes;
}

-- `max(c.received_at)` of the take's chunks.
abbrev pub last_receipt : Take → List Chunk → ℕ
last_receipt t [] = t.created_at
last_receipt t (c ∷ cs) =
    if is_chunk_of t.id t.workspace_id c
    then max c.received_at (last_receipt t cs)
    else last_receipt t cs

abbrev pub last_activity : Db → Take → ℕ
last_activity db t = max t.created_at (last_receipt t db.chunks)

unfoldable pub is_idle : ℕ → Db → Take → Bool
is_idle cutoff db t =
    is_none t.finalized_at && is_none t.abandoned_at && ltb (last_activity db t) cutoff

abbrev pub created_before : Take → Take → Bool
created_before a b = ltb a.created_at b.created_at

abbrev pub same_take : Take → Take → Bool
same_take a b = a.id == b.id && a.workspace_id == b.workspace_id

-- The takes that are marked, and the state with the marks.
unfoldable pub abandon_idle_takes : ℕ → ℕ → ℕ → Db → List Take × Db
unfolding is_idle
abandon_idle_takes now cutoff limit db =
    let idle = take limit (sort_by created_before (filter (is_idle cutoff db) db.takes)) in
    (
      idle,
      record db {
        takes =
            update_where (λ t. any (same_take t) idle) (λ t. record t { abandoned_at = some now })
              db.takes;
      },
    )

unfoldable pub is_purgeable : ℕ → Db → Take → Bool
is_purgeable cutoff db t =
    is_none t.finalized_at
    && not (is_none t.abandoned_at)
    && any (is_chunk_of t.id t.workspace_id) db.chunks
    && not (any (λ c. is_chunk_of t.id t.workspace_id c && leb cutoff c.received_at) db.chunks)
    && ltb t.created_at cutoff

unfoldable pub purgeable_takes : ℕ → ℕ → Db → List Take
unfolding is_purgeable
purgeable_takes cutoff limit db =
    take limit (sort_by created_before (filter (is_purgeable cutoff db) db.takes))

unfoldable pub delete_chunks : ℕ → ℕ → Db → Db
delete_chunks take_id workspace db = record db {
  chunks = delete_where (is_chunk_of take_id workspace) db.chunks;
}

-- The object store: the size of an object, and deleting all objects under a prefix.
unfoldable pub head : Text → List (Text × ℕ) → Option ℕ
head key [] = none
head key ((k, size) ∷ objects) = if text_eq k key then some size else head key objects

unfoldable pub delete_prefix : Text → List (Text × ℕ) → List (Text × ℕ)
delete_prefix prefix = delete_where λ o. starts_with prefix o.0
