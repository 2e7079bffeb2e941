-- ===== src/Delivery/Tokens.antt =====
-- The token on a rung playlist's URL (crates/delivery/src/manifest_token.rs). HMAC-SHA-256 under
-- the signer's key and base64url are arguments. A recording's identifier is its 16 bytes. A time
-- is an i64 in two's complement: a number from 2 ^ 63 on stands for a time before the epoch.
pub mod Genuine
mod Examples
use sintade.Prelude.{
  ℕ, zero, suc, ◌+◌, ◌*◌, ◌/◌, ◌%◌, ◌^◌, Bool, true, false, not, ◌||◌, List, [], ◌∷◌, ◌++◌, Option,
  none, some, Result, ok, err, ok_or, fail_if, ◌>>=◌, ◌>>◌, leb, ◌==◌, if◌then◌else◌, length,
}
use sintade.Prelude.Text.{Text, codes, text_eq}
use sintade.Prelude.Lines.{split_once}

pub data TokenError : Type 0 where
  invalid expired : TokenError

abbrev pub dot : Text
dot = b'.' ∷ []

-- `to_be_bytes` of the lowest `n` bytes.
unfoldable pub to_be_bytes : ℕ → ℕ → List ℕ
to_be_bytes zero value = []
to_be_bytes (suc n) value = to_be_bytes n (value / 256) ++ value % 256 ∷ []

abbrev pub from_be : ℕ → List ℕ → ℕ
from_be high [] = high
from_be high (byte ∷ bytes) = from_be (high * 256 + byte) bytes

abbrev pub from_be_bytes : List ℕ → ℕ
from_be_bytes = from_be 0

-- `expires_at <= now` on i64, at a time after the epoch.
abbrev pub is_expired : ℕ → ℕ → Bool
is_expired expires_at now = leb (2 ^ 63) expires_at || leb expires_at now

-- `split_at_checked(n)`.
abbrev pub behind_first {ℓ} : {A : Type ℓ} → A → Option (List A × List A) → Option (List A × List A)
behind_first x none = none
behind_first x (some (front, back)) = some (x ∷ front, back)

abbrev pub split_at_checked {ℓ} : {A : Type ℓ} → ℕ → List A → Option (List A × List A)
split_at_checked zero xs = some ([], xs)
split_at_checked (suc n) [] = none
split_at_checked (suc n) (x ∷ xs) = behind_first x (split_at_checked n xs)

module _ (mac : List ℕ → List ℕ) (encode : List ℕ → Text) (decode : Text → Option (List ℕ)) where
  abbrev pub payload_of : List ℕ → ℕ → List ℕ
  payload_of recording expires_at = recording ++ to_be_bytes 8 expires_at

  unfoldable pub issue : List ℕ → ℕ → Text
  issue recording expires_at =
      let payload = payload_of recording expires_at in encode payload ++ b'.' ∷ encode (mac payload)

  unfoldable pub verify : Text → List ℕ → ℕ → Result TokenError ℕ
  unfolding split_once
  verify token recording now = do
    (payload_b64, signature_b64) ← ok_or (split_once dot token) invalid
    payload ← ok_or (decode payload_b64) invalid
    signature ← ok_or (decode signature_b64) invalid
    fail_if (not (text_eq (mac payload) signature)) invalid
    (id, exp) ← ok_or (split_at_checked 16 payload) invalid
    fail_if (not (length exp == 8)) invalid
    fail_if (not (text_eq id recording)) invalid
    fail_if (is_expired (from_be_bytes exp) now) expired
    ok (from_be_bytes exp)
