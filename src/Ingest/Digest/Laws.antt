-- ===== src/Ingest/Digest/Laws.antt =====
-- Printing and parsing digests.
use sintade.Prelude.{
  ℕ, zero, suc, ◌+◌, ◌*◌, ◌/◌, ◌%◌, ◌≤◌, ◌<◌, ◌≡◌, refl, ap, ap₂, subst, ◌∙◌, Bool, true, ◌&&◌,
  List, [], ◌∷◌, some, ◌==◌, ==_iff, arith, All, length, Result, ok, err, ok_value, ok-injective,
}
use sintade.Prelude.Text.{Text, ascii_lower, to_ascii_lowercase}
use sintade.Ingest.Digest.{
  DigestError, parsed_byte, parsed_slot, byte_of, hex_value, parse_pairs, parse_hex, hex_char,
  to_hex, hex_digit, parse_sha256_pairs, parse_sha256,
}

abbrev pub IsByte : ℕ → Type 0
IsByte b = b < 256

-- A digest: 32 bytes.
pub record IsDigest (bytes : List ℕ) : Type 0 where
  pub bytes_long : length bytes ≡ 32
  pub each : All IsByte bytes

-- A test of each number under a bound.
passes_under : (ℕ → Bool) → ℕ → Bool
passes_under test zero = true
passes_under test (suc bound) = passes_under test bound && test bound

passes_under-at :
    (test : ℕ → Bool) (bound i : ℕ) → i < bound → passes_under test bound ≡ true → test i ≡ true
unfolding passes_under
passes_under-at test zero i small h = elim small [ ]
passes_under-at test (suc bound) i small h = ground (arith, passes_under-at test bound i)

-- Putting the two halves of a byte together, checked for every byte.
byte_table : passes_under (λ b. byte_of (b / 16) (b % 16) == b) 256 ≡ true
unfolding passes_under
byte_table = refl

byte_of_halves : (b : ℕ) → IsByte b → byte_of (b / 16) (b % 16) ≡ b
byte_of_halves b h =
    (==_iff (byte_of (b / 16) (b % 16)) b).0
      (passes_under-at (λ b. byte_of (b / 16) (b % 16) == b) 256 b h byte_table)

hex_value-hex_char : (n : ℕ) → n < 16 → hex_value (hex_char n) ≡ ok n
unfolding hex_value
hex_value-hex_char n h = ground arith

hex_digit-hex_char : (n : ℕ) → n < 16 → hex_digit (hex_char n) ≡ some n
unfolding hex_digit
hex_digit-hex_char n h = ground arith

length-to_hex : (bytes : List ℕ) → length (to_hex bytes) ≡ 2 * length bytes
unfolding to_hex
length-to_hex [] = refl
length-to_hex (b ∷ bs) = omega (arith, length-to_hex bs)

parse_pairs-to_hex : (bytes : List ℕ) → All IsByte bytes → parse_pairs (to_hex bytes) ≡ ok bytes
unfolding parse_pairs to_hex
parse_pairs-to_hex [] h = refl
parse_pairs-to_hex (b ∷ bs) h = rw (
  hex_value-hex_char (b / 16) (omega arith),
  hex_value-hex_char (b % 16) (omega arith),
  parse_pairs-to_hex bs h.1,
  byte_of_halves b h.0,
)

-- Every digest survives being printed in hexadecimal and parsed.
pub parse_hex-to_hex : (bytes : List ℕ) → IsDigest bytes → parse_hex (to_hex bytes) ≡ ok bytes
unfolding parse_hex
parse_hex-to_hex bytes d = rw (length-to_hex bytes, d.bytes_long) (parse_pairs-to_hex bytes d.each)

parsed_slot-parsed_byte :
    (high low : Result DigestError ℕ) (later : Result DigestError (List ℕ))
    → parsed_slot (ok_value high) (ok_value low) (ok_value later)
      ≡ ok_value (parsed_byte high low later)
parsed_slot-parsed_byte (err _) low later = refl
parsed_slot-parsed_byte (ok h) (err _) later = refl
parsed_slot-parsed_byte (ok h) (ok l) (err _) = refl
parsed_slot-parsed_byte (ok h) (ok l) (ok _) = refl

hex_digit-hex_value : (digit : ℕ) → hex_digit digit ≡ ok_value (hex_value digit)
unfolding hex_digit hex_value
hex_digit-hex_value digit = ground arith

parse_sha256_pairs-parse_pairs :
    (n : ℕ) (hex : Text) → length hex ≤ n → parse_sha256_pairs hex ≡ ok_value (parse_pairs hex)
unfolding parse_sha256_pairs parse_pairs
parse_sha256_pairs-parse_pairs n [] h = refl
parse_sha256_pairs-parse_pairs n (c ∷ []) h = refl
parse_sha256_pairs-parse_pairs zero (c ∷ d ∷ rest) h = absurd (omega arith)
parse_sha256_pairs-parse_pairs (suc n) (c ∷ d ∷ rest) h =
    rw
      (
        hex_digit-hex_value c,
        hex_digit-hex_value d,
        parse_sha256_pairs-parse_pairs n rest (omega arith),
      )
      (parsed_slot-parsed_byte (hex_value c) (hex_value d) (parse_pairs rest))

-- Ingest and media read the same texts as digests, and read the same bytes from them.
pub parse_sha256-parse_hex : (hex : Text) → parse_sha256 hex ≡ ok_value (parse_hex hex)
unfolding parse_sha256 parse_hex
parse_sha256-parse_hex hex = ground (arith, parse_sha256_pairs-parse_pairs (length hex) hex)

hex_value_sound : (c n : ℕ) → hex_value c ≡ ok n → (n < 16) × (hex_char n ≡ ascii_lower c)
unfolding hex_value
hex_value_sound c n h = ground arith

byte_of_digits : (h l : ℕ) → h < 16 → l < 16 → byte_of h l ≡ 16 * h + l
byte_of_digits h l a b =
    ap₂ byte_of (omega arith) (omega arith) ∙ byte_of_halves (16 * h + l) (omega arith)

-- What parsing returns: bytes that print as the text, in lowercase.
record Parsed (hex : Text) (bytes : List ℕ) : Type 0 where
  even : length hex ≡ 2 * length bytes
  each : All IsByte bytes
  prints : to_hex bytes ≡ to_ascii_lowercase hex

cons_twice :
    {a b c d : ℕ} {xs ys : Text}
    → a ≡ b
    → c ≡ d
    → xs ≡ ys
    → ◌≡◌ {A = Text} (a ∷ c ∷ xs) (b ∷ d ∷ ys)
cons_twice p q r = cc

Parsed-byte :
    (c d : ℕ) (later bytes : List ℕ) (rest : Text)
    → (h : ℕ) → hex_value c ≡ ok h
    → (l : ℕ) → hex_value d ≡ ok l
    → Parsed rest later
    → byte_of h l ∷ later ≡ bytes
    → Parsed (c ∷ d ∷ rest) bytes
unfolding to_hex
Parsed-byte c d later bytes rest h eh l el p same =
    let (h_small, h_prints) = hex_value_sound c h eh in
    let (l_small, l_prints) = hex_value_sound d l el in
    let b = byte_of_digits h l h_small l_small in
    let high : byte_of h l / 16 ≡ h = omega (arith, b) in
    let low : byte_of h l % 16 ≡ l = omega (arith, b) in
    subst (Parsed (c ∷ d ∷ rest)) same (record {
      even = omega (arith, p.even);
      each = (omega (arith, b), p.each);
      prints = cons_twice (ap hex_char high ∙ h_prints) (ap hex_char low ∙ l_prints) p.prints;
    })

parsed_byte-parts :
    (high low : Result DigestError ℕ) (later : Result DigestError (List ℕ)) (bytes : List ℕ)
    → parsed_byte high low later ≡ ok bytes
    → (h : ℕ) × (l : ℕ) × (ls : List ℕ) × (high ≡ ok h)
      × (low ≡ ok l)
      × (later ≡ ok ls)
      × (byte_of h l ∷ ls ≡ bytes)
parsed_byte-parts (err _) low later bytes e = absurd (cc)
parsed_byte-parts (ok h) (err _) later bytes e = absurd (cc)
parsed_byte-parts (ok h) (ok l) (err _) bytes e = absurd (cc)
parsed_byte-parts (ok h) (ok l) (ok ls) bytes e = (h, l, ls, refl, refl, refl, ok-injective e)

parse_pairs-Parsed :
    (n : ℕ) (hex : Text) (bytes : List ℕ)
    → length hex ≡ 2 * n
    → parse_pairs hex ≡ ok bytes
    → Parsed hex bytes
unfolding parse_pairs to_hex
parse_pairs-Parsed n [] bytes e h =
    subst (Parsed []) (ok-injective h) (record { even = refl; each = tt; prints = refl })
parse_pairs-Parsed n (c ∷ []) bytes e h = absurd (omega arith)
parse_pairs-Parsed zero (c ∷ d ∷ rest) bytes e h = absurd (omega arith)
parse_pairs-Parsed (suc n) (c ∷ d ∷ rest) bytes e h =
    let (high, low, later, eh, el, er, same) =
      parsed_byte-parts (hex_value c) (hex_value d) (parse_pairs rest) bytes h in
    Parsed-byte c d later bytes rest high eh low el
      (parse_pairs-Parsed n rest later (omega arith) er) same

-- A text that parses is a digest of 32 bytes, and printing the digest gives the text back in
-- lowercase.
pub parse_hex_sound :
    (hex : Text) (bytes : List ℕ)
    → parse_hex hex ≡ ok bytes
    → IsDigest bytes × (to_hex bytes ≡ to_ascii_lowercase hex)
unfolding parse_hex
parse_hex_sound hex bytes h =
    let long : length hex ≡ 64 = ground arith in
    let p = parse_pairs-Parsed 32 hex bytes long (ground arith) in
    (record { bytes_long = omega (arith, p.even); each = p.each }, p.prints)
