-- ===== src/Ingest/Digest.antt =====
-- SHA-256 digests in hexadecimal: `Sha256Digest` of crates/ingest/src/domain/mod.rs and
-- `parse_sha256` of crates/media/src/domain/mod.rs. A digest is a list of bytes.
pub mod Laws
mod Examples
use Prim.Native.Nat.{bit_or}
use sintade.Prelude.{
  ℕ, suc, ◌+◌, ◌-◌, ◌*◌, ◌/◌, ◌%◌, Bool, true, false, not, ◌&&◌, List, [], ◌∷◌, Option, none, some,
  leb, ◌==◌, if◌then◌else◌, length, Result, ok, err, ◌>>=◌, ◌>>◌, fail_if,
}
use sintade.Prelude.Text.{Text}

pub data DigestError : Type 0 where
  malformed : DigestError

-- `(high << 4) | low` on u8.
abbrev pub byte_of : ℕ → ℕ → ℕ
byte_of high low = bit_or (high * 16 % 256) low

unfoldable pub hex_value : ℕ → Result DigestError ℕ
hex_value digit =
    if leb b'0' digit && leb digit b'9'
    then ok (digit - b'0')
    else if leb b'a' digit && leb digit b'f'
    then ok (digit - b'a' + 10)
    else if leb b'A' digit && leb digit b'F'
    then ok (digit - b'A' + 10)
    else err malformed

-- One round of the loop: the values of two digits, and what the later rounds give.
abbrev pub parsed_byte :
    Result DigestError ℕ
    → Result DigestError ℕ
    → Result DigestError (List ℕ)
    → Result DigestError (List ℕ)
parsed_byte high low later = do h ← high; l ← low; bytes ← later; ok (byte_of h l ∷ bytes)

-- The loop over the pairs of characters.
unfoldable pub parse_pairs : Text → Result DigestError (List ℕ)
parse_pairs (high ∷ low ∷ rest) =
    let later = parse_pairs rest in parsed_byte (hex_value high) (hex_value low) later
parse_pairs _ = ok []

unfoldable pub parse_hex : Text → Result DigestError (List ℕ)
parse_hex raw = do fail_if (not (length raw == 64)) malformed; parse_pairs raw

-- A slice is a digest if it has 32 bytes.
unfoldable pub from_bytes : List ℕ → Option (List ℕ)
from_bytes bytes = if length bytes == 32 then some bytes else none

abbrev pub hex_char : ℕ → ℕ
hex_char n = if leb n 9 then b'0' + n else b'a' + n - 10

-- `format!("{byte:02x}")` for each byte.
unfoldable pub to_hex : List ℕ → Text
to_hex [] = []
to_hex (byte ∷ rest) = hex_char (byte / 16) ∷ hex_char (byte % 16) ∷ to_hex rest

unfoldable pub hex_digit : ℕ → Option ℕ
hex_digit digit =
    if leb b'0' digit && leb digit b'9'
    then some (digit - b'0')
    else if leb b'a' digit && leb digit b'f'
    then some (digit - b'a' + 10)
    else if leb b'A' digit && leb digit b'F'
    then some (digit - b'A' + 10)
    else none

abbrev pub and_then {ℓ κ} : {A : Type ℓ} {B : Type κ} → Option A → (A → Option B) → Option B
and_then none f = none
and_then (some a) f = f a

abbrev pub parsed_slot : Option ℕ → Option ℕ → Option (List ℕ) → Option (List ℕ)
parsed_slot high low later =
    and_then high λ h. and_then low λ l. and_then later λ bytes. some (byte_of h l ∷ bytes)

unfoldable pub parse_sha256_pairs : Text → Option (List ℕ)
parse_sha256_pairs (high ∷ low ∷ rest) =
    let later = parse_sha256_pairs rest in parsed_slot (hex_digit high) (hex_digit low) later
parse_sha256_pairs _ = some []

unfoldable pub parse_sha256 : Text → Option (List ℕ)
parse_sha256 hex = if not (length hex == 64) then none else parse_sha256_pairs hex
