-- ===== src/Sharing/Slugs.antt =====
-- The public names of share links (crates/sharing/src/domain/slug.rs). The random bytes that each
-- round of the loop reads are an argument, and so is the number of rounds it may take.
pub mod Draws
mod Examples
use sintade.Prelude.{
  ℕ, zero, suc, ◌%◌, ◌+◌, Bool, true, false, ◌&&◌, ◌||◌, List, [], ◌∷◌, ◌++◌, Option, none, some,
  Result, ok, err, ok_or, ◌>>=◌, ltb, leb, ◌==◌, if◌then◌else◌, all, length, get_elem?,
}
use sintade.Prelude.Text.{Text, codes, byte_len}

abbrev pub alphabet : Text
alphabet = codes "0123456789ABCDEFGHIJKLMNOPQRSTUVWXYZabcdefghijklmnopqrstuvwxyz"

abbrev pub slug_len : ℕ
slug_len = 12

abbrev pub reject_from : ℕ
reject_from = 248

-- Why the loop gives no slug: an index past the alphabet, or rounds that ran out.
pub data Stuck : Type 0 where
  index_out_of_bounds out_of_rounds : Stuck

abbrev pub is_used : ℕ → Text → Bool
is_used byte slug = ltb byte reject_from && ltb (length slug) slug_len

unfoldable pub push_byte : ℕ → Text → Result Stuck Text
push_byte byte slug =
    let longer = (do
      letter ← ok_or (get_elem? alphabet (byte % 62)) index_out_of_bounds
      ok (slug ++ letter ∷ [])) in
    if is_used byte slug then longer else ok slug

unfoldable pub push_bytes : List ℕ → Text → Result Stuck Text
unfolding push_byte
push_bytes [] slug = ok slug
push_bytes (byte ∷ bytes) slug = do longer ← push_byte byte slug; push_bytes bytes longer

-- The `while` loop, from the round `round` on.
unfoldable pub draw_from : (ℕ → List ℕ) → ℕ → ℕ → Text → Result Stuck Text
unfolding push_bytes
draw_from source zero round slug = if ltb (length slug) slug_len then err out_of_rounds else ok slug
draw_from source (suc rounds) round slug =
    let rest = (do
      longer ← push_bytes (source round) slug
      draw_from source rounds (round + 1) longer) in
    if ltb (length slug) slug_len then rest else ok slug

unfoldable pub generate : (ℕ → List ℕ) → ℕ → Result Stuck Text
unfolding draw_from
generate source rounds = draw_from source rounds 0 []

-- `u8::is_ascii_alphanumeric`. A character past ASCII has no such byte, so that the test may look
-- at characters in place of bytes.
abbrev pub is_ascii_alphanumeric : ℕ → Bool
is_ascii_alphanumeric c = leb 48 c && leb c 57 || leb 65 c && leb c 90 || leb 97 c && leb c 122

unfoldable pub parse_slug : Text → Option Text
parse_slug raw =
    if byte_len raw == slug_len && all is_ascii_alphanumeric raw then some raw else none
