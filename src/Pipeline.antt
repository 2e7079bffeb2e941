-- ===== src/Pipeline.antt =====
-- The contract between ingest and media: media receives `TakeFinalized` and builds the chunk
-- manifest of the take from it (`ChunkManifest::new`, crates/media/src/domain/mod.rs, on the
-- event of `IngestService::finalize`, crates/ingest/src/app/service.rs).
mod Examples
use sintade.Prelude.{
  ℕ, zero, suc, ◌++◌, ◌+◌, ◌≤◌, ◌<◌, ◌≡◌, refl, sym, ap, ap₂, ◌∙◌, Bool, true, false, List, [], ◌∷◌,
  Option, none, some, map, filter, ltb, ◌==◌, arith, if◌then◌else◌, All, All-map, length, range, ok,
  ok_value, Bool-cases, inl, inr,
}
use sintade.Prelude.Text.{Text}
use sintade.Ingest.Digest.{from_bytes, to_hex, parse_sha256, parse_hex}
use sintade.Ingest.Digest.Laws.{IsDigest, parse_hex-to_hex, parse_sha256-parse_hex}
use sintade.Ingest.Tables.{Chunk, FinalizedChunk, Db, UploadableTake, receipts, received_indexes}
use sintade.Ingest.Tables.Invariant.{IsTable, IsReceipt, receipts-each}
use sintade.Ingest.Service.{FinalizeTake, FinalizeOutcome}
use sintade.Ingest.Finalizing.{hex_or_empty, finalized_chunk, manifest, finalized_event, finalize}
use sintade.Ingest.Finalizing.Success.{Completed, Found, finalize-Found, finalize-Completed}
use sintade.Media.Manifest.{ManifestChunk, is_missing, new}
use sintade.Media.Manifest.Laws.{IsUsable, idx_of, new_of_range}

-- The event is JSON on the way; both sides have the same four fields.
abbrev pub received_as : FinalizedChunk → ManifestChunk
received_as c = record { idx = c.idx; key = c.key; size_bytes = c.size_bytes; sha256 = c.sha256 }

printed_digest : (c : Chunk) → IsReceipt c → hex_or_empty (from_bytes c.sha256) ≡ to_hex c.sha256
unfolding from_bytes
printed_digest c r = ground (arith, r.digest.bytes_long)

parsed_digest : (bytes : List ℕ) → IsDigest bytes → is_missing (parse_sha256 (to_hex bytes)) ≡ false
parsed_digest bytes d = rw (parse_sha256-parse_hex (to_hex bytes), parse_hex-to_hex bytes d)

-- Where every receipt is below the count, the event lists every receipt.
filter-All :
    (count : ℕ) (cs : List Chunk)
    → All (λ c. c.idx < count) cs
    → filter (λ c. ltb c.idx count) cs ≡ cs
filter-All count [] h = refl
filter-All count (c ∷ cs) h = ground (arith, filter-All count cs h.1)

idx_small :
    (first n : ℕ) (cs : List Chunk)
    → map (λ (c : Chunk). c.idx) cs ≡ range first n
    → All (λ c. c.idx < first + n) cs
idx_small first n [] e = tt
idx_small first zero (c ∷ cs) e = absurd (cc)
idx_small first (suc n) (c ∷ cs) e =
    let here : c.idx ≡ first = cc in
    let rest : map (λ (c : Chunk). c.idx) cs ≡ range (first + 1) n = cc in
    (
      omega arith,
      All-map (λ c. c.idx < first + 1 + n) (λ c. c.idx < first + suc n) (λ c k. omega arith) cs
          (idx_small (first + 1) n cs rest),
    )

module _ (show_id : ℕ → Text) (request : FinalizeTake) (t : UploadableTake) where
  abbrev sent : List Chunk → List ManifestChunk
  sent cs = map received_as (map (finalized_chunk show_id request t) cs)

  indexes_sent : (cs : List Chunk) → map idx_of (sent cs) ≡ map (λ (c : Chunk). c.idx) cs
  indexes_sent [] = refl
  indexes_sent (c ∷ cs) = ap (λ is. c.idx ∷ is) (indexes_sent cs)

  sent-IsUsable : (cs : List Chunk) → All IsReceipt cs → All IsUsable (sent cs)
  sent-IsUsable [] h = tt
  sent-IsUsable (c ∷ cs) h = (
    record {
      some_bytes = h.0.size_pos;
      has_digest = rw (printed_digest c h.0) (parsed_digest c.sha256 h.0.digest);
    },
    sent-IsUsable cs h.1,
  )

indexes_of_receipts :
    (request : FinalizeTake) (db : Db)
    → map (λ (c : Chunk). c.idx) (receipts request.take_id request.workspace_id db)
      ≡ received_indexes request.take_id request.workspace_id db
unfolding received_indexes
indexes_of_receipts request db = refl

-- The manifest that media builds from the event of a successful `finalize` is accepted, and holds
-- the event's chunks in the event's order.
pub new-finalize :
    (show_id : ℕ → Text) (now : ℕ) (request : FinalizeTake) (db : Db) (recording : ℕ) (db' : Db)
    → IsTable db.chunks
    → (done : finalize show_id now request db ≡ ok (FinalizeOutcome.finalized recording, db'))
    → (t : UploadableTake) × (db'.outbox ≡ db.outbox ++ finalized_event show_id request t db ∷ [])
      × (new (map received_as (finalized_event show_id request t db).chunks) request.chunk_count
          ≡ ok (map received_as (finalized_event show_id request t db).chunks))
new-finalize show_id now request db recording db' table done =
    let c = finalize-Completed show_id now request db recording db' table done in
    let f = finalize-Found show_id now request db (FinalizeOutcome.finalized recording) db' done in
    let mine = receipts request.take_id request.workspace_id db in
    let small : All (λ c. c.idx < request.chunk_count) mine =
      All-map (λ c. c.idx < 0 + request.chunk_count) (λ c. c.idx < request.chunk_count)
        (λ c k. omega arith) mine
        (idx_small 0 request.chunk_count mine (indexes_of_receipts request db ∙ c.all_there)) in
    (
      c.t,
      c.announced,
      rw (filter-All request.chunk_count mine small) (
          new_of_range (sent show_id request c.t mine) request.chunk_count f.count_pos
            (indexes_sent show_id request c.t mine ∙ indexes_of_receipts request db ∙ c.all_there)
            (sent-IsUsable show_id request c.t mine
              (receipts-each request.take_id request.workspace_id db table))),
    )
