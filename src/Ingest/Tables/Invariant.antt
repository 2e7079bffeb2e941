-- ===== src/Ingest/Tables/Invariant.antt =====
-- The constraints of the `chunks` table: its primary key, and what each receipt holds.
use sintade.Prelude.{
  ℕ, suc, ◌≤◌, ◌<◌, ◌≡◌, ◌≢◌, sym, Bool, false, not, List, [], ◌∷◌, ◌++◌, map, arith, All,
  All-append, All-filter, Pairwise, any, filter, Bool-cases, inl, inr,
}
use sintade.Prelude.Sort.{ByKey, IsSorted, sort_by, sort_by-IsSorted, All-sort_by, Pairwise-sort_by}
use sintade.Ingest.Digest.Laws.{IsDigest}
use sintade.Ingest.Chunks.{max_chunk_index, max_chunk_bytes}
use sintade.Ingest.Tables.{
  Chunk, Db, has_key, is_chunk_of, idx_before, receipts, received_indexes, insert_chunk,
  delete_chunks,
}
use sintade.Ingest.Walk.{Ascending}

pub record IsReceipt (c : Chunk) : Type 0 where
  pub idx_small : c.idx ≤ max_chunk_index
  pub size_pos : 0 < c.size_bytes
  pub size_small : c.size_bytes ≤ max_chunk_bytes
  pub digest : IsDigest c.sha256

-- Two receipts with different primary keys.
abbrev pub KeysDiffer : Chunk → Chunk → Type 0
KeysDiffer a b = has_key a.take_id a.idx b ≡ false

pub record IsTable (chunks : List Chunk) : Type 0 where
  pub keys : Pairwise KeysDiffer chunks
  pub each : All IsReceipt chunks

Pairwise-snoc :
    (xs : List Chunk) (c : Chunk)
    → Pairwise KeysDiffer xs
    → any (has_key c.take_id c.idx) xs ≡ false
    → Pairwise KeysDiffer (xs ++ c ∷ [])
Pairwise-snoc [] c p n = (tt, tt)
Pairwise-snoc (x ∷ xs) c p n = (
  All-append (KeysDiffer x) xs (c ∷ []) p.0 (ground arith, tt),
  Pairwise-snoc xs c p.1 (ground arith),
)

Pairwise-filter :
    (p : Chunk → Bool) (xs : List Chunk)
    → Pairwise KeysDiffer xs
    → Pairwise KeysDiffer (filter p xs)
Pairwise-filter p [] h = tt
Pairwise-filter p (x ∷ xs) h = elim (Bool-cases (p x)) [
  | inl e ↦ rw e (All-filter (KeysDiffer x) p xs h.0, Pairwise-filter p xs h.1)
  | inr e ↦ rw e (Pairwise-filter p xs h.1)
]

pub insert_chunk-IsTable :
    (now take_id workspace idx size : ℕ) (sha256 : List ℕ) (db : Db)
    → IsTable db.chunks
    → idx ≤ max_chunk_index
    → 0 < size
    → size ≤ max_chunk_bytes
    → IsDigest sha256
    → IsTable (insert_chunk now take_id workspace idx size sha256 db).0.chunks
unfolding insert_chunk
insert_chunk-IsTable now take_id workspace idx size sha256 db t i p s d =
    elim (Bool-cases (any (has_key take_id idx) db.chunks)) [
      | inl taken ↦ rw taken t
      | inr free ↦ rw free (record {
        keys = Pairwise-snoc db.chunks _ t.keys free;
        each =
            All-append IsReceipt db.chunks _ t.each
              (record { idx_small = i; size_pos = p; size_small = s; digest = d }, tt);
      })
    ]

pub delete_chunks-IsTable :
    (take_id workspace : ℕ) (db : Db)
    → IsTable db.chunks
    → IsTable (delete_chunks take_id workspace db).chunks
unfolding delete_chunks
delete_chunks-IsTable take_id workspace db t = record {
  keys = Pairwise-filter (λ c. not (is_chunk_of take_id workspace c)) db.chunks t.keys;
  each = All-filter IsReceipt (λ c. not (is_chunk_of take_id workspace c)) db.chunks t.each;
}

-- Receipts of one take with different keys have different indexes.
abbrev IndexesDiffer : Chunk → Chunk → Type 0
IndexesDiffer a b = a.idx ≢ b.idx

abbrev IsOf : ℕ → Chunk → Type 0
IsOf take_id c = c.take_id ≡ take_id

IndexesDiffer-of_keys :
    (take_id : ℕ) (xs : List Chunk)
    → All (IsOf take_id) xs
    → Pairwise KeysDiffer xs
    → Pairwise IndexesDiffer xs
IndexesDiffer-of_keys take_id [] h p = tt
IndexesDiffer-of_keys take_id (x ∷ xs) h p =
    (go xs h.1 p.0, IndexesDiffer-of_keys take_id xs h.1 p.1)
  where
    go :
        (ys : List Chunk) → All (IsOf take_id) ys → All (KeysDiffer x) ys → All (IndexesDiffer x) ys
    go [] k d = tt
    go (y ∷ ys) k d = ((λ e. ground arith), go ys k.1 d.1)

filter-IsOf :
    (take_id workspace : ℕ) (xs : List Chunk)
    → All (IsOf take_id) (filter (is_chunk_of take_id workspace) xs)
filter-IsOf take_id workspace [] = tt
filter-IsOf take_id workspace (x ∷ xs) = elim (Bool-cases (is_chunk_of take_id workspace x)) [
  | inl e ↦ rw e (ground arith, filter-IsOf take_id workspace xs)
  | inr e ↦ rw e (filter-IsOf take_id workspace xs)
]

abbrev idx_of : Chunk → ℕ
idx_of c = c.idx

Ascending-of_sorted :
    (low : ℕ) (xs : List Chunk)
    → All (λ c. low ≤ c.idx) xs
    → IsSorted idx_of xs
    → Pairwise IndexesDiffer xs
    → Ascending low (map idx_of xs)
Ascending-of_sorted low [] h s p = tt
Ascending-of_sorted low (x ∷ xs) h s p =
    (h.0, Ascending-of_sorted (suc x.idx) xs (go xs s.0 p.0) s.1 p.1)
  where
    go :
        (ys : List Chunk)
        → All (λ c. x.idx ≤ c.idx) ys
        → All (IndexesDiffer x) ys
        → All (λ c. suc x.idx ≤ c.idx) ys
    go [] k d = tt
    go (y ∷ ys) k d = (omega arith, go ys k.1 d.1)

idx_before-ByKey : ByKey idx_before idx_of
idx_before-ByKey = record { smaller = λ x y h. ground arith; larger = λ x y h. ground arith }

All-zero_le : (xs : List Chunk) → All (λ c. 0 ≤ c.idx) xs
All-zero_le [] = tt
All-zero_le (x ∷ xs) = (omega arith, All-zero_le xs)

-- The indexes that ingest reads back for a take are in increasing order, with no repetition.
pub received_indexes-Ascending :
    (take_id workspace : ℕ) (db : Db)
    → IsTable db.chunks
    → Ascending 0 (received_indexes take_id workspace db)
unfolding received_indexes
received_indexes-Ascending take_id workspace db t =
    let mine = filter (is_chunk_of take_id workspace) db.chunks in
    Ascending-of_sorted 0 (sort_by idx_before mine) (All-zero_le (sort_by idx_before mine))
      (sort_by-IsSorted idx_before idx_of idx_before-ByKey mine)
      (Pairwise-sort_by idx_before IndexesDiffer (λ x y d e. d (sym e)) mine
        (IndexesDiffer-of_keys take_id mine (filter-IsOf take_id workspace db.chunks)
          (Pairwise-filter (is_chunk_of take_id workspace) db.chunks t.keys)))

pub receipts-each :
    (take_id workspace : ℕ) (db : Db)
    → IsTable db.chunks
    → All IsReceipt (receipts take_id workspace db)
unfolding receipts
receipts-each take_id workspace db t =
    All-sort_by idx_before IsReceipt (filter (is_chunk_of take_id workspace) db.chunks)
      (All-filter IsReceipt (is_chunk_of take_id workspace) db.chunks t.each)
