-- ===== src/Delivery/Scenario.antt =====
-- A coding of bytes as text and a MAC, for the tests of delivery.
use sintade.Prelude.{
  ℕ, ◌+◌, ◌-◌, ◌%◌, ◌≡◌, refl, Bool, true, not, ◌&&◌, List, [], ◌∷◌, Option, none, some, All,
  Bool-cases, inl, inr, arith, ltb, leb, ◌==◌, if◌then◌else◌, all, map, length, replicate,
}
use sintade.Prelude.Text.{Text}
use sintade.Delivery.Tokens.Genuine.{IsByte}

-- A byte as a character from U+0100 on.
abbrev pub encode : List ℕ → Text
encode = map λ b. b + 256

abbrev pub is_code : ℕ → Bool
is_code c = leb 256 c && ltb c 512

abbrev pub decode : Text → Option (List ℕ)
decode text = if all is_code text then some (map (λ c. c - 256) text) else none

abbrev pub mac : List ℕ → List ℕ
mac bytes = length bytes % 256 ∷ 7 ∷ []

abbrev pub id_bytes : ℕ → List ℕ
id_bytes n = n % 256 ∷ replicate 15 0

pub mac-IsByte : (bytes : List ℕ) → All IsByte (mac bytes)
mac-IsByte bytes = (omega arith, (omega arith, tt))

pub encode-no_dot : (bytes : List ℕ) → all (λ c. not (c == b'.')) (encode bytes) ≡ true
encode-no_dot [] = refl
encode-no_dot (b ∷ bytes) = ground (arith, encode-no_dot bytes)

all-encode : (bytes : List ℕ) → All IsByte bytes → all is_code (encode bytes) ≡ true
all-encode [] h = refl
all-encode (b ∷ bytes) h = ground (arith, h.0, all-encode bytes h.1)

map-encode : (bytes : List ℕ) → map (λ c. c - 256) (encode bytes) ≡ bytes
map-encode [] = refl
map-encode (b ∷ bytes) =
    let same : b + 256 - 256 ≡ b = omega arith in rw (same, map-encode bytes) refl

pub decode-encode : (bytes : List ℕ) → All IsByte bytes → decode (encode bytes) ≡ some bytes
decode-encode bytes h = rw (all-encode bytes h, map-encode bytes) refl

all-is_code : (text : Text) → all is_code text ≡ true → All IsByte (map (λ c. c - 256) text)
all-is_code [] h = tt
all-is_code (c ∷ text) h = (ground arith, all-is_code text (ground arith))

pub decode-IsByte : (text : Text) (bytes : List ℕ) → decode text ≡ some bytes → All IsByte bytes
decode-IsByte text bytes h = elim (Bool-cases (all is_code text)) [
  | inl e ↦
      let same : map (λ c. c - 256) text ≡ bytes = cc (rw e at h) in
      rw (← same) (all-is_code text e)
  | inr e ↦ cc (rw e at h)
]
