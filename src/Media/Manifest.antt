-- ===== src/Media/Manifest.antt =====
-- The chunk manifest that a take is processed from (crates/media/src/domain/mod.rs).
pub mod Laws
mod Examples
use sintade.Prelude.{
  ℕ, ◌+◌, ◌<◌, Bool, true, false, not, List, [], ◌∷◌, Option, none, some, ltb, ◌==◌, if◌then◌else◌,
  length, Result, ok, err, ◌>>=◌, ◌>>◌, fail_if,
}
use sintade.Prelude.Sort.{sort_by}
use sintade.Prelude.Text.{Text}
use sintade.Ingest.Digest.{parse_sha256}

pub record ManifestChunk : Type 0 where
  pub idx : ℕ
  pub key : Text
  pub size_bytes : ℕ
  pub sha256 : Text

pub data ManifestError : Type 0 where
  empty : ManifestError
  count_mismatch : ℕ → ℕ → ManifestError
  gap : ℕ → ManifestError
  bad_digest : ℕ → ManifestError
  empty_chunk : ℕ → ManifestError

abbrev pub idx_before : ManifestChunk → ManifestChunk → Bool
idx_before a b = ltb a.idx b.idx

abbrev pub is_missing {ℓ} : {A : Type ℓ} → Option A → Bool
is_missing none = true
is_missing (some _) = false

-- The loop over the sorted chunks and the expected indexes, which are as many.
unfoldable pub check_chunks : ℕ → List ManifestChunk → Result ManifestError (Unit {0})
check_chunks expected [] = ok tt
check_chunks expected (chunk ∷ rest) =
    let later = check_chunks (expected + 1) rest in
    if not (chunk.idx == expected)
    then err (gap expected)
    else if chunk.size_bytes == 0
    then err (empty_chunk chunk.idx)
    else if is_missing (parse_sha256 chunk.sha256)
    then err (bad_digest chunk.idx)
    else later

-- `ChunkManifest::new`; a manifest is its chunks.
unfoldable pub new : List ManifestChunk → ℕ → Result ManifestError (List ManifestChunk)
new chunks chunk_count = do
  fail_if (chunk_count == 0) empty
  fail_if (not (length chunks == chunk_count)) (count_mismatch chunk_count (length chunks))
  let sorted = sort_by idx_before chunks
  check_chunks 0 sorted
  ok sorted

unfoldable pub total_bytes : List ManifestChunk → ℕ
total_bytes [] = 0
total_bytes (chunk ∷ rest) = chunk.size_bytes + total_bytes rest
