-- ===== src/Media/Manifest/Laws.antt =====
-- What `ChunkManifest::new` accepts.
use sintade.Prelude.{
  ℕ, ◌+◌, ◌<◌, ◌≡◌, refl, sym, ap, ap₂, ◌∙◌, subst, Bool, false, List, [], ◌∷◌, map, arith, All,
  any, length, length-map, length-range, range, ok,
}
use sintade.Prelude.Sort.{sort_by, insert_sorted, length-sort_by, any-sort_by}
use sintade.Ingest.Digest.{parse_sha256}
use sintade.Media.Manifest.{ManifestChunk, idx_before, is_missing, check_chunks, new}

-- A chunk that processing can use.
pub record IsUsable (chunk : ManifestChunk) : Type 0 where
  pub some_bytes : 0 < chunk.size_bytes
  pub has_digest : is_missing (parse_sha256 chunk.sha256) ≡ false

abbrev pub idx_of : ManifestChunk → ℕ
idx_of chunk = chunk.idx

check_chunks_sound :
    (expected : ℕ) (chunks : List ManifestChunk)
    → check_chunks expected chunks ≡ ok tt
    → (map idx_of chunks ≡ range expected (length chunks)) × All IsUsable chunks
unfolding check_chunks
check_chunks_sound expected [] h = (refl, tt)
check_chunks_sound expected (chunk ∷ rest) h =
    let later : check_chunks (expected + 1) rest ≡ ok tt = ground arith in
    let (in_order, usable) = check_chunks_sound (expected + 1) rest later in
    let first : chunk.idx ≡ expected = ground arith in
    (
      ap₂ ◌∷◌ first in_order,
      (record { some_bytes = ground arith; has_digest = ground arith }, usable),
    )

check_chunks_complete :
    (expected : ℕ) (chunks : List ManifestChunk)
    → map idx_of chunks ≡ range expected (length chunks)
    → All IsUsable chunks
    → check_chunks expected chunks ≡ ok tt
unfolding check_chunks
check_chunks_complete expected [] e u = refl
check_chunks_complete expected (chunk ∷ rest) e u =
    let first : chunk.idx ≡ expected = cc in
    let others : map idx_of rest ≡ range (expected + 1) (length rest) = cc in
    ground (arith, check_chunks_complete (expected + 1) rest others u.1)

-- Chunks that are already in order are left in order.
sort_by-range :
    (first : ℕ) (chunks : List ManifestChunk)
    → map idx_of chunks ≡ range first (length chunks)
    → sort_by idx_before chunks ≡ chunks
unfolding sort_by insert_sorted
sort_by-range first [] e = refl
sort_by-range first (a ∷ []) e = refl
sort_by-range first (a ∷ b ∷ rest) e =
    let others : map idx_of (b ∷ rest) ≡ range (first + 1) (length (b ∷ rest)) = cc in
    let a_first : a.idx ≡ first = cc in
    let b_second : b.idx ≡ first + 1 = cc in
    rw (sort_by-range (first + 1) (b ∷ rest) others) (ground arith)

-- What `new` returns is the chunks of exactly the indexes `0 .. chunk_count`, in order, each with
-- some bytes and a digest of 64 hexadecimal digits; every chunk of it was in the input, and the
-- other way round.
pub new_sound :
    (chunks : List ManifestChunk) (chunk_count : ℕ) (m : List ManifestChunk)
    → new chunks chunk_count ≡ ok m
    → (0 < chunk_count)
      × (map idx_of m ≡ range 0 chunk_count)
      × All IsUsable m
      × ((p : ManifestChunk → Bool) → any p m ≡ any p chunks)
unfolding new
new_sound chunks chunk_count m h =
    let long : length chunks ≡ chunk_count = ground arith in
    let checked : check_chunks 0 (sort_by idx_before chunks) ≡ ok tt = ground arith in
    let same : sort_by idx_before chunks ≡ m = ground arith in
    let (in_order, usable) = check_chunks_sound 0 (sort_by idx_before chunks) checked in
    (
      ground arith,
      ap (map idx_of) (sym same)
          ∙ in_order
          ∙ ap (range 0) (length-sort_by idx_before chunks ∙ long),
      subst (All IsUsable) same usable,
      λ p. ap (any p) (sym same) ∙ any-sort_by idx_before p chunks,
    )

-- Usable chunks of the indexes `0 .. chunk_count`, in order, are accepted as they are.
pub new_of_range :
    (chunks : List ManifestChunk) (chunk_count : ℕ)
    → 0 < chunk_count
    → map idx_of chunks ≡ range 0 chunk_count
    → All IsUsable chunks
    → new chunks chunk_count ≡ ok chunks
unfolding new
new_of_range chunks chunk_count pos e u =
    let long : length chunks ≡ chunk_count =
      sym (length-map idx_of chunks) ∙ ap length e ∙ length-range 0 chunk_count in
    let in_order : map idx_of chunks ≡ range 0 (length chunks) = e ∙ ap (range 0) (sym long) in
    rw (sort_by-range 0 chunks in_order) (ground (arith, check_chunks_complete 0 chunks in_order u))
