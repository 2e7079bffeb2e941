-- ===== src/Ingest/Digest/Examples.antt =====
-- Digests at a concrete text: the SHA-256 of the empty input, in both cases.
use sintade.Prelude.{◌≡◌, refl, List, [], ◌∷◌, ℕ, ok}
use sintade.Prelude.Text.{Text, codes}
use sintade.Ingest.Digest.{hex_value, parse_pairs, parse_hex}

abbrev empty_sha256 : Text
empty_sha256 = codes "E3B0C44298FC1C149AFBF4C8996FB92427AE41E4649B934CA495991B7852B855"

abbrev empty_digest : List ℕ
empty_digest =
    0xe3 ∷ 0xb0 ∷ 0xc4 ∷ 0x42 ∷ 0x98 ∷ 0xfc ∷ 0x1c ∷ 0x14 ∷ 0x9a ∷ 0xfb ∷ 0xf4 ∷ 0xc8 ∷ 0x99 ∷ 0x6f
    ∷ 0xb9 ∷ 0x24 ∷ 0x27 ∷ 0xae ∷ 0x41 ∷ 0xe4 ∷ 0x64 ∷ 0x9b ∷ 0x93 ∷ 0x4c ∷ 0xa4 ∷ 0x95 ∷ 0x99
    ∷ 0x1b ∷ 0x78 ∷ 0x52 ∷ 0xb8 ∷ 0x55 ∷ []

parse_hex-empty : parse_hex empty_sha256 ≡ ok empty_digest
unfolding parse_hex parse_pairs hex_value
parse_hex-empty = refl
