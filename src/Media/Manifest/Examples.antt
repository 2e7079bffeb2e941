-- ===== src/Media/Manifest/Examples.antt =====
-- Chunk manifests of two chunks.
use sintade.Prelude.{ℕ, ◌≡◌, refl, List, [], ◌∷◌, ok, err, replicate}
use sintade.Prelude.Text.{codes}
use sintade.Media.Manifest.{ManifestChunk, gap, bad_digest, new, total_bytes, check_chunks}
use sintade.Prelude.Sort.{sort_by}
use sintade.Ingest.Digest.{parse_sha256, parse_sha256_pairs, hex_digit}

abbrev chunk : ℕ → ManifestChunk
chunk idx = record { idx = idx; key = codes "k"; size_bytes = 500; sha256 = replicate 64 b'0' }

abbrev in_order : List ManifestChunk
in_order = chunk 0 ∷ chunk 1 ∷ []

sorted_here : new (chunk 1 ∷ chunk 0 ∷ []) 2 ≡ ok in_order
unfolding new check_chunks sort_by parse_sha256 parse_sha256_pairs hex_digit
sorted_here = refl

all_bytes : total_bytes in_order ≡ 1000
unfolding total_bytes
all_bytes = refl

one_twice : new (chunk 0 ∷ chunk 0 ∷ []) 2 ≡ err (gap 1)
unfolding new check_chunks sort_by parse_sha256 parse_sha256_pairs hex_digit
one_twice = refl

no_hash : new (record (chunk 0) { sha256 = [] } ∷ []) 1 ≡ err (bad_digest 0)
unfolding new check_chunks sort_by parse_sha256
no_hash = refl
