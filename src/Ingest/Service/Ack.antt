-- ===== src/Ingest/Service/Ack.antt =====
-- Acknowledging a chunk, once and again: `IngestService::ack_chunk`.
use sintade.Prelude.{
  ℕ, ◌≤◌, ◌<◌, ◌≡◌, refl, ap, ◌∙◌, false, List, [], ◌∷◌, ◌++◌, some, any, ok, Result-cases, inl,
  inr,
}
use sintade.Prelude.Text.{Text}
use sintade.Ingest.Digest.{parse_hex}
use sintade.Ingest.Digest.Laws.{IsDigest, parse_hex_sound}
use sintade.Ingest.Chunks.{max_chunk_index, max_chunk_bytes, chunk_key}
use sintade.Ingest.Tables.{
  Db, UploadableTake, has_key, find_take_for_owner, find_chunk, insert_chunk, head,
}
use sintade.Ingest.Tables.Invariant.{IsTable, insert_chunk-IsTable}
use sintade.Ingest.Service.{
  AckChunk, AckOutcome, acked, already_acked, Prepared, answered, fresh, prepare_ack, record_ack,
  ack_chunk,
}
use sintade.Ingest.Service.Receipts.{
  compare_receipt_sound, chunk_size_sound, prepare_ack-Checked, answer-answered, answer-fresh,
  receipt_for, record_ack-acked,
}

-- What an ack that answers `acked` has checked, and what it left.
pub record Acked (show_id : ℕ → Text) (now : ℕ) (request : AckChunk) (db db' : Db) : Type 0 where
  pub t : UploadableTake
  pub digest : List ℕ
  pub found : find_take_for_owner request.take_id request.workspace_id request.user_id db ≡ some t
  pub open_before : t.finalized ≡ false
  pub hash : parse_hex request.sha256 ≡ ok digest
  pub stored :
      head
        (chunk_key show_id request.workspace_id t.recording_id request.take_id request.idx
          t.mime_type)
        db.objects
      ≡ some request.size_bytes
  pub was_free : any (has_key request.take_id request.idx) db.chunks ≡ false
  pub left :
      db'
      ≡ record db { chunks = db.chunks ++ receipt_for now request request.size_bytes digest ∷ [] }
  pub table : IsTable db.chunks → IsTable db'.chunks

old_outcome :
    (now : ℕ) (request : AckChunk) (db db' : Db) (outcome : AckOutcome)
    → outcome ≡ already_acked
    → record_ack now request (answered outcome) db ≡ (ok acked, db')
    → ⊥
unfolding record_ack
old_outcome now request db db' already_acked e r = cc (ap (λ p. p.0) r)
old_outcome now request db db' acked e r = cc

appended-IsTable :
    (now : ℕ) (request : AckChunk) (size : ℕ) (digest : List ℕ) (db : Db)
    → any (has_key request.take_id request.idx) db.chunks ≡ false
    → request.idx ≤ max_chunk_index
    → 0 < size
    → size ≤ max_chunk_bytes
    → IsDigest digest
    → IsTable db.chunks
    → IsTable (db.chunks ++ receipt_for now request size digest ∷ [])
unfolding insert_chunk
appended-IsTable now request size digest db free small pos bounded d table = rw free at (
    insert_chunk-IsTable now request.take_id request.workspace_id request.idx size digest db table
      small pos bounded d)

module _ (show_id : ℕ → Text) (now : ℕ) (request : AckChunk) (db db' : Db) where
  -- An ack succeeds where its read part prepared an answer that the rest of it gave.
  pub ack_chunk-prepared :
      (outcome : AckOutcome)
      → ack_chunk show_id now request db ≡ (ok outcome, db')
      → (p : Prepared) × (prepare_ack show_id request db ≡ ok p)
        × (record_ack now request p db ≡ (ok outcome, db'))
  unfolding ack_chunk
  ack_chunk-prepared outcome h = elim (Result-cases (prepare_ack show_id request db)) [
    | inl (p, e) ↦ (p, e, rw e at h)
    | inr (bad, e) ↦ absurd (cc (ap (λ p. p.0) (rw e at h)))
  ]

  acked_as :
      (p : Prepared)
      → prepare_ack show_id request db ≡ ok p
      → record_ack now request p db ≡ (ok acked, db')
      → Acked show_id now request db db'
  acked_as (answered outcome) prepared recorded =
      let c = prepare_ack-Checked show_id request db (answered outcome) prepared in
      let (receipt, had, compared) =
        answer-answered show_id request c.size c.digest c.t db
          (find_chunk request.take_id request.workspace_id request.idx db) outcome
          c.then_answered in
      let (is_old, _, _) = compare_receipt_sound request c.size c.digest receipt outcome compared in
      absurd (old_outcome now request db db' outcome is_old recorded)
  acked_as (fresh size digest) prepared recorded =
      let c = prepare_ack-Checked show_id request db (fresh size digest) prepared in
      let (had_none, open_before, object, s, d) =
        answer-fresh show_id request c.size c.digest c.t db
          (find_chunk request.take_id request.workspace_id request.idx db) size digest
          c.then_answered in
      let (claimed, pos, small) = chunk_size_sound request.size_bytes c.size c.sized in
      let (is_digest, _) = parse_hex_sound request.sha256 c.digest c.hash in
      let (was_free, left, _) = record_ack-acked now request size digest db db' recorded in
      record {
        t = c.t;
        digest = c.digest;
        found = c.found;
        open_before = open_before;
        hash = c.hash;
        stored = object ∙ ap some claimed;
        was_free = was_free;
        left = left ∙ (rw (s ∙ claimed, d) refl);
        table = λ table.
            rw (left, s ∙ claimed, d)
              (appended-IsTable now request request.size_bytes c.digest db was_free c.idx_small pos
                small is_digest table);
      }

  -- An ack that answers `acked` was for a take that is open, for an index with no receipt, and for
  -- an object that is stored with the claimed size; it adds the one receipt, and changes nothing
  -- else.
  pub ack_chunk-Acked :
      ack_chunk show_id now request db ≡ (ok acked, db') → Acked show_id now request db db'
  ack_chunk-Acked h =
      let (p, prepared, recorded) = ack_chunk-prepared acked h in acked_as p prepared recorded
