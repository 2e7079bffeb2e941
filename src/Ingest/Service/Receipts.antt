-- ===== src/Ingest/Service/Receipts.antt =====
-- The steps of `IngestService::ack_chunk`: the checks, the comparison with a receipt, the insert.
use sintade.Prelude.{
  ℕ, ◌≤◌, ◌<◌, ◌≡◌, refl, sym, ap, ◌∙◌, Bool, true, false, List, [], ◌∷◌, ◌++◌, Option, none, some,
  arith, any, find, length, ok, ◌>>=◌, ok_or, Result-cases, Option-cases, Bool-cases, inl, inr,
}
use sintade.Prelude.Text.{Text, text_eq, text_eq_sound, text_eq_refl}
use sintade.Ingest.Digest.{parse_hex, from_bytes}
use sintade.Ingest.Digest.Laws.{IsDigest}
use sintade.Ingest.Chunks.{max_chunk_index, max_chunk_bytes, chunk_size, chunk_key}
use sintade.Ingest.Tables.{
  Chunk, Db, UploadableTake, is_chunk, has_key, find_take_for_owner, find_chunk, insert_chunk, head,
}
use sintade.Ingest.Service.{
  AckChunk, AckOutcome, AckError, acked, already_acked, Prepared, answered, fresh, compare_receipt,
  check_stored, answer, prepare_ack, record_ack,
}

-- The answer to a claim for an index that has a receipt.
pub compare_receipt-same :
    (request : AckChunk) (size : ℕ) (digest : List ℕ) (receipt : Chunk)
    → IsDigest digest
    → receipt.size_bytes ≡ size
    → receipt.sha256 ≡ digest
    → compare_receipt request size digest receipt ≡ ok already_acked
unfolding compare_receipt from_bytes
compare_receipt-same request size digest receipt d s h =
    let same : text_eq digest digest ≡ true = text_eq_refl digest in
    let long : length digest ≡ 32 = d.bytes_long in rw (s, h) (ground arith)

pub compare_receipt_sound :
    (request : AckChunk) (size : ℕ) (digest : List ℕ) (receipt : Chunk) (outcome : AckOutcome)
    → compare_receipt request size digest receipt ≡ ok outcome
    → (outcome ≡ already_acked) × (receipt.size_bytes ≡ size) × (receipt.sha256 ≡ digest)
unfolding compare_receipt from_bytes
compare_receipt_sound request size digest receipt outcome h =
    let same : text_eq receipt.sha256 digest ≡ true = ground arith in
    (ground arith, ground arith, text_eq_sound receipt.sha256 digest same)

pub chunk_size_sound :
    (n size : ℕ) → chunk_size n ≡ ok size → (size ≡ n) × (0 < n) × (n ≤ max_chunk_bytes)
unfolding chunk_size
chunk_size_sound n size h = (ground arith, ground arith, ground arith)

-- What the checks of the request and the take have found.
pub record Checked (show_id : ℕ → Text) (request : AckChunk) (db : Db) (p : Prepared) : Type 0 where
  pub digest : List ℕ
  pub size : ℕ
  pub t : UploadableTake
  pub idx_small : request.idx ≤ max_chunk_index
  pub hash : parse_hex request.sha256 ≡ ok digest
  pub sized : chunk_size request.size_bytes ≡ ok size
  pub found : find_take_for_owner request.take_id request.workspace_id request.user_id db ≡ some t
  pub then_answered :
      answer show_id
        (find_chunk request.take_id request.workspace_id request.idx db)
        request
        size
        digest
        t
        db
      ≡ ok p

pub prepare_ack-Checked :
    (show_id : ℕ → Text) (request : AckChunk) (db : Db) (p : Prepared)
    → prepare_ack show_id request db ≡ ok p
    → Checked show_id request db p
unfolding prepare_ack
prepare_ack-Checked show_id request db p h = elim (Result-cases (parse_hex request.sha256)) [
  | inr (e, bad) ↦ absurd (ground arith)
  | inl (digest, hash) ↦ elim (Result-cases (chunk_size request.size_bytes)) [
    | inr (e, bad) ↦ absurd (ground arith)
    | inl (size, sized) ↦
        elim (Option-cases
          (find_take_for_owner request.take_id request.workspace_id request.user_id db)) [
            | inl missing ↦ absurd (ground arith)
            | inr (t, found) ↦ record {
              digest = digest;
              size = size;
              t = t;
              idx_small = ground arith;
              hash = hash;
              sized = sized;
              found = found;
              then_answered = ground arith;
            }
          ]
  ]
]

module _ (show_id : ℕ → Text) (request : AckChunk) (size : ℕ) (digest : List ℕ) (t : UploadableTake)
    (db : Db) where
  pub answer-answered :
      (o : Option Chunk) (outcome : AckOutcome)
      → answer show_id o request size digest t db ≡ ok (answered outcome)
      → (receipt : Chunk) × (o ≡ some receipt)
        × (compare_receipt request size digest receipt ≡ ok outcome)
  unfolding check_stored
  answer-answered none outcome h =
      elim (Option-cases (
        head
          (chunk_key show_id request.workspace_id t.recording_id request.take_id request.idx
            t.mime_type)
          db.objects)) [
            | inl no_object ↦ absurd (ground arith)
            | inr (stored, object) ↦ absurd (ground arith)
          ]
  answer-answered (some receipt) outcome h =
      elim (Result-cases (compare_receipt request size digest receipt)) [
        | inl (a, e) ↦ (receipt, refl, e ∙ ap ok (cc (rw e at h)))
        | inr (a, e) ↦ absurd (cc (rw e at h))
      ]

  pub answer-fresh :
      (o : Option Chunk) (s : ℕ) (d : List ℕ)
      → answer show_id o request size digest t db ≡ ok (fresh s d)
      → (o ≡ none)
        × (t.finalized ≡ false)
        × (head
              (chunk_key show_id request.workspace_id t.recording_id request.take_id request.idx
                t.mime_type)
              db.objects
            ≡ some size)
        × (s ≡ size)
        × (d ≡ digest)
  unfolding check_stored
  answer-fresh none s d h =
      elim (Option-cases (
        head
          (chunk_key show_id request.workspace_id t.recording_id request.take_id request.idx
            t.mime_type)
          db.objects)) [
            | inl no_object ↦ absurd (ground arith)
            | inr (stored, object) ↦ (refl, ground arith, ground arith, ground arith, ground arith)
          ]
  answer-fresh (some receipt) s d h =
      elim (Result-cases (compare_receipt request size digest receipt)) [
        | inl (a, e) ↦ absurd (cc (rw e at h))
        | inr (a, e) ↦ absurd (cc (rw e at h))
      ]

-- The receipt that an ack records.
abbrev pub receipt_for : ℕ → AckChunk → ℕ → List ℕ → Chunk
receipt_for now request size digest = record {
  take_id = request.take_id;
  workspace_id = request.workspace_id;
  idx = request.idx;
  size_bytes = size;
  sha256 = digest;
  received_at = now;
}

find-append :
    (p : Chunk → Bool) (xs ys : List Chunk) → find p xs ≡ none → find p (xs ++ ys) ≡ find p ys
find-append p [] ys h = refl
find-append p (x ∷ xs) ys h = elim (Bool-cases (p x)) [
  | inl e ↦ absurd (cc (rw e at h))
  | inr e ↦ rw e (find-append p xs ys (rw e at h))
]

not_found_of_key :
    (take_id ws idx : ℕ) (xs : List Chunk)
    → any (has_key take_id idx) xs ≡ false
    → find (is_chunk take_id ws idx) xs ≡ none
not_found_of_key take_id ws idx [] h = refl
not_found_of_key take_id ws idx (x ∷ xs) h = ground (arith, not_found_of_key take_id ws idx xs)

-- Where the key is taken, the answer is never that the chunk is new.
not_acked :
    (request : AckChunk) (size : ℕ) (digest : List ℕ) (o : Option Chunk)
    → (ok_or o AckError.not_found >>= compare_receipt request size digest) ≡ ok acked
    → ⊥
not_acked request size digest none h = cc
not_acked request size digest (some receipt) h =
    absurd (cc ((compare_receipt_sound request size digest receipt acked h).0))

-- A new receipt is recorded only where the key is free, and then it is what a look-up finds.
pub record_ack-acked :
    (now : ℕ) (request : AckChunk) (size : ℕ) (digest : List ℕ) (db db' : Db)
    → record_ack now request (fresh size digest) db ≡ (ok acked, db')
    → (any (has_key request.take_id request.idx) db.chunks ≡ false)
      × (db' ≡ record db { chunks = db.chunks ++ receipt_for now request size digest ∷ [] })
      × (find_chunk request.take_id request.workspace_id request.idx db'
          ≡ some (receipt_for now request size digest))
unfolding record_ack insert_chunk find_chunk
record_ack-acked now request size digest db db' h =
    elim (Bool-cases (any (has_key request.take_id request.idx) db.chunks)) [
      | inl taken ↦ absurd (
          not_acked request size digest
            (find (is_chunk request.take_id request.workspace_id request.idx) db.chunks)
            (ap (λ p. p.0) (rw taken at h)))
      | inr free ↦
          let e : record db { chunks = db.chunks ++ receipt_for now request size digest ∷ [] }
              ≡ db' =
            ap (λ p. p.1) (rw free at h) in
          let here : is_chunk request.take_id request.workspace_id request.idx
                (receipt_for now request size digest)
              ≡ true =
            ground arith in
          (
            free,
            sym e,
            rw
                (
                  ← e,
                  find-append (is_chunk request.take_id request.workspace_id request.idx) db.chunks
                      (receipt_for now request size digest ∷ [])
                      (not_found_of_key request.take_id request.workspace_id request.idx db.chunks
                        free),
                  here,
                )
                refl,
          )
    ]
