-- ===== src/Ingest/Service/Again.antt =====
-- Acks that are repeated, and acks that race: `IngestService::ack_chunk`.
use sintade.Prelude.{
  ℕ, ◌≤◌, ◌≡◌, subst, refl, sym, ap, ◌∙◌, true, false, ◌&&◌, List, [], ◌∷◌, ◌++◌, Option, none,
  some, ltb, ◌==◌, if◌then◌else◌, arith, any, ok, err, ◌>>=◌, ok_or, Bool-cases, inl, inr,
}
use sintade.Prelude.Text.{Text, text_eq}
use sintade.Ingest.Digest.{parse_hex, from_bytes}
use sintade.Ingest.Digest.Laws.{IsDigest, parse_hex_sound}
use sintade.Ingest.Chunks.{max_chunk_index, chunk_size}
use sintade.Ingest.Tables.{
  Chunk, Db, UploadableTake, has_key, find_take_for_owner, find_chunk, insert_chunk,
}
use sintade.Ingest.Service.{
  AckChunk, AckOutcome, AckError, acked, already_acked, mismatch, Prepared, answered, fresh,
  compare_receipt, prepare_ack, record_ack, ack_chunk,
}
use sintade.Ingest.Service.Receipts.{
  compare_receipt-same, compare_receipt_sound, prepare_ack-Checked, answer-answered, answer-fresh,
  receipt_for, record_ack-acked,
}
use sintade.Ingest.Service.Ack.{ack_chunk-prepared}

-- The receipt that answers a claim from now on.
pub record Receipted (request : AckChunk) (size : ℕ) (digest : List ℕ) (db : Db) : Type 0 where
  pub receipt : Chunk
  pub there : find_chunk request.take_id request.workspace_id request.idx db ≡ some receipt
  pub same_size : receipt.size_bytes ≡ size
  pub same_digest : receipt.sha256 ≡ digest

Receipted-reread :
    (request : AckChunk) (size : ℕ) (digest : List ℕ) (db : Db) (o : Option Chunk)
    (outcome : AckOutcome)
    → find_chunk request.take_id request.workspace_id request.idx db ≡ o
    → (ok_or o AckError.not_found >>= compare_receipt request size digest) ≡ ok outcome
    → Receipted request size digest db
Receipted-reread request size digest db none outcome e h = absurd (cc)
Receipted-reread request size digest db (some receipt) outcome e h =
    let c = compare_receipt_sound request size digest receipt outcome h in
    record { receipt = receipt; there = e; same_size = c.1; same_digest = c.2 }

record_ack-taken :
    (now : ℕ) (request : AckChunk) (size : ℕ) (digest : List ℕ) (db : Db)
    → any (has_key request.take_id request.idx) db.chunks ≡ true
    → record_ack now request (fresh size digest) db ≡ (
      ok_or (find_chunk request.take_id request.workspace_id request.idx db) AckError.not_found
          >>= compare_receipt request size digest,
      db,
    )
unfolding record_ack insert_chunk
record_ack-taken now request size digest db taken = rw taken refl

record_ack-free :
    (now : ℕ) (request : AckChunk) (size : ℕ) (digest : List ℕ) (db : Db)
    → any (has_key request.take_id request.idx) db.chunks ≡ false
    → record_ack now request (fresh size digest) db
      ≡ (ok acked, record db { chunks = db.chunks ++ receipt_for now request size digest ∷ [] })
unfolding record_ack insert_chunk
record_ack-free now request size digest db free = rw free refl

record_ack-Receipted :
    (now : ℕ) (request : AckChunk) (size : ℕ) (digest : List ℕ) (db db' : Db) (outcome : AckOutcome)
    → record_ack now request (fresh size digest) db ≡ (ok outcome, db')
    → Receipted request size digest db'
record_ack-Receipted now request size digest db db' outcome h =
    elim (Bool-cases (any (has_key request.take_id request.idx) db.chunks)) [
      | inl taken ↦
          let h' = sym (record_ack-taken now request size digest db taken) ∙ h in
          let same : db ≡ db' = ap (λ p. p.1) h' in
          subst (Receipted request size digest) same (
            Receipted-reread request size digest db
              (find_chunk request.take_id request.workspace_id request.idx db) outcome refl
              (ap (λ p. p.0) h'))
      | inr free ↦
          let fresh_row = record_ack-free now request size digest db free in
          let a =
            record_ack-acked now request size digest db db'
              (fresh_row ∙ ap (λ d. (ok acked, d)) (ap (λ p. p.1) (sym fresh_row ∙ h))) in
          record {
            receipt = receipt_for now request size digest;
            there = a.2;
            same_size = refl;
            same_digest = refl;
          }
    ]

-- A request that was answered with success: it is valid, and its receipt agrees.
record Answered (request : AckChunk) (db : Db) : Type 0 where
  size : ℕ
  digest : List ℕ
  idx_small : request.idx ≤ max_chunk_index
  hash : parse_hex request.sha256 ≡ ok digest
  sized : chunk_size request.size_bytes ≡ ok size
  receipted : Receipted request size digest db

unchanged_by_answer :
    (now : ℕ) (request : AckChunk) (db db' : Db) (given outcome : AckOutcome)
    → record_ack now request (answered given) db ≡ (ok outcome, db')
    → db ≡ db'
unfolding record_ack
unchanged_by_answer now request db db' given outcome h = ap (λ p. p.1) h

module _ (show_id : ℕ → Text) where
  prepared-Answered :
      (now : ℕ) (request : AckChunk) (p : Prepared) (db db' : Db) (outcome : AckOutcome)
      → prepare_ack show_id request db ≡ ok p
      → record_ack now request p db ≡ (ok outcome, db')
      → Answered request db'
  prepared-Answered now request (answered given) db db' outcome prepared recorded =
      let c = prepare_ack-Checked show_id request db (answered given) prepared in
      let (receipt, had, compared) =
        answer-answered show_id request c.size c.digest c.t db
          (find_chunk request.take_id request.workspace_id request.idx db) given c.then_answered in
      let (_, same_size, same_digest) =
        compare_receipt_sound request c.size c.digest receipt given compared in
      record {
        size = c.size;
        digest = c.digest;
        idx_small = c.idx_small;
        hash = c.hash;
        sized = c.sized;
        receipted =
            subst (Receipted request c.size c.digest)
              (unchanged_by_answer now request db db' given outcome recorded)
              (record {
                receipt = receipt;
                there = had;
                same_size = same_size;
                same_digest = same_digest;
              });
      }
  prepared-Answered now request (fresh size digest) db db' outcome prepared recorded =
      let c = prepare_ack-Checked show_id request db (fresh size digest) prepared in
      let (_, _, _, s, d) =
        answer-fresh show_id request c.size c.digest c.t db
          (find_chunk request.take_id request.workspace_id request.idx db) size digest
          c.then_answered in
      record {
        size = size;
        digest = digest;
        idx_small = c.idx_small;
        hash = c.hash ∙ ap ok (sym d);
        sized = c.sized ∙ ap ok (sym s);
        receipted = record_ack-Receipted now request size digest db db' outcome recorded;
      }

  -- A claim for an index whose receipt agrees is answered from the receipt.
  ack_chunk-Receipted :
      (now : ℕ) (request : AckChunk) (size : ℕ) (digest : List ℕ) (db : Db) (t : UploadableTake)
      → request.idx ≤ max_chunk_index
      → parse_hex request.sha256 ≡ ok digest
      → chunk_size request.size_bytes ≡ ok size
      → find_take_for_owner request.take_id request.workspace_id request.user_id db ≡ some t
      → Receipted request size digest db
      → ack_chunk show_id now request db ≡ (ok already_acked, db)
  unfolding ack_chunk prepare_ack record_ack
  ack_chunk-Receipted now request size digest db t small hash sized found r =
      let (d, _) = parse_hex_sound request.sha256 digest hash in
      let same = compare_receipt-same request size digest r.receipt d r.same_size r.same_digest in
      let let_through : ltb max_chunk_index request.idx ≡ false = ground arith in
      rw (let_through, hash, sized, found, r.there, same) refl

  -- An ack that was answered with success is answered `already_acked` whenever it is repeated
  -- while the take and the receipt are there, whether or not the take was finalized in between,
  -- and the repetition changes nothing.
  pub ack_chunk-again :
      (now later : ℕ) (request : AckChunk) (db db' db'' : Db) (outcome : AckOutcome)
      (t : UploadableTake)
      → ack_chunk show_id now request db ≡ (ok outcome, db')
      → find_chunk request.take_id request.workspace_id request.idx db''
        ≡ find_chunk request.take_id request.workspace_id request.idx db'
      → find_take_for_owner request.take_id request.workspace_id request.user_id db'' ≡ some t
      → ack_chunk show_id later request db'' ≡ (ok already_acked, db'')
  ack_chunk-again now later request db db' db'' outcome t h same_receipt found =
      let (p, prepared, recorded) = ack_chunk-prepared show_id now request db db' outcome h in
      let a = prepared-Answered now request p db db' outcome prepared recorded in
      ack_chunk-Receipted later request a.size a.digest db'' t a.idx_small a.hash a.sized found
        (record {
          receipt = a.receipted.receipt;
          there = same_receipt ∙ a.receipted.there;
          same_size = a.receipted.same_size;
          same_digest = a.receipted.same_digest;
        })

compare_receipt-receipt_for :
    (now : ℕ) (a b : AckChunk) (size size' : ℕ) (digest digest' : List ℕ)
    → IsDigest digest
    → compare_receipt b size' digest' (receipt_for now a size digest)
      ≡ (if size == size' && text_eq digest digest' then ok already_acked else err (mismatch b.idx))
unfolding compare_receipt from_bytes
compare_receipt-receipt_for now a b size size' digest digest' d = rw d.bytes_long refl

taken_after :
    (now : ℕ) (a : AckChunk) (size : ℕ) (digest : List ℕ) (chunks : List Chunk)
    → any (has_key a.take_id a.idx) (chunks ++ receipt_for now a size digest ∷ []) ≡ true
taken_after now a size digest [] = ground arith
taken_after now a size digest (c ∷ chunks) = ground (arith, taken_after now a size digest chunks)

-- Of two acks for one index that both found it without a receipt, the one that is recorded later
-- changes nothing: it is answered from the receipt of the earlier one, as agreeing with it or as a
-- mismatch.
pub record_ack-race :
    (now later : ℕ) (a b : AckChunk) (size size' : ℕ) (digest digest' : List ℕ) (db db' : Db)
    → b.take_id ≡ a.take_id
    → b.workspace_id ≡ a.workspace_id
    → b.idx ≡ a.idx
    → IsDigest digest
    → record_ack now a (fresh size digest) db ≡ (ok acked, db')
    → record_ack later b (fresh size' digest') db' ≡ (
      if size == size' && text_eq digest digest' then ok already_acked else err (mismatch b.idx),
      db',
    )
record_ack-race now later a b size size' digest digest' db db' e f g d h =
    let (free, left, there) = record_ack-acked now a size digest db db' h in
    let taken : any (has_key b.take_id b.idx) db'.chunks ≡ true =
      rw (left, e, g) (taken_after now a size digest db.chunks) in
    record_ack-taken later b size' digest' db' taken
    ∙ rw (e, f, g, there)
        (ap (λ r. (r, db'))
          (compare_receipt-receipt_for now a
            (record b { take_id = a.take_id; workspace_id = a.workspace_id; idx = a.idx }) size
            size' digest digest' d))
