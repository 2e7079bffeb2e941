-- ===== src/Sharing/Slugs/Draws.antt =====
-- The loop that draws a slug ends as soon as it has read enough bytes that it may use.
use sintade.Prelude.{
  ℕ, zero, suc, ◌+◌, ◌%◌, ◌≤◌, ◌<◌, min, ◌≡◌, refl, ◌∙◌, Bool, true, false, List, [], ◌∷◌, ◌++◌,
  some, ok, inl, inr, Bool-cases, arith, ltb, all, length, length-append, get_elem?, count_where,
}
use sintade.Prelude.Text.{Text, byte_len}
use sintade.Sharing.Slugs.{
  alphabet, slug_len, reject_from, is_used, push_byte, push_bytes, draw_from, generate,
  is_ascii_alphanumeric, parse_slug,
}

-- The bytes that the rounds from `round` on may use: those below 248.
abbrev pub usable : (ℕ → List ℕ) → ℕ → ℕ → ℕ
usable source zero round = 0
usable source (suc rounds) round =
    count_where (λ byte. ltb byte reject_from) (source round) + usable source rounds (round + 1)

-- Letters only, and at most as many as a slug has.
abbrev IsPart : Text → Type 0
IsPart slug = (all is_ascii_alphanumeric slug ≡ true) × (length slug ≤ slug_len)

element_all :
    {p : ℕ → Bool} (xs : List ℕ) (i : ℕ)
    → i < length xs
    → all p xs ≡ true
    → (x : ℕ) × (get_elem? xs i ≡ some x) × (p x ≡ true)
element_all [] i h k = absurd (omega arith)
element_all (x ∷ xs) zero h k = (x, refl, ground arith)
element_all (x ∷ xs) (suc i) h k = element_all xs i (omega arith) (ground arith)

letter_at :
    (byte : ℕ)
    → (c : ℕ) × (get_elem? alphabet (byte % 62) ≡ some c) × (is_ascii_alphanumeric c ≡ true)
letter_at byte = element_all alphabet (byte % 62) (omega arith) refl

all-append :
    (p : ℕ → Bool) (xs : List ℕ) (x : ℕ)
    → all p xs ≡ true
    → p x ≡ true
    → all p (xs ++ x ∷ []) ≡ true
all-append p [] x h k = ground arith
all-append p (y ∷ ys) x h k = ground (arith, all-append p ys x)

abbrev gain : ℕ → ℕ
gain byte = count_where (λ b. ltb b reject_from) (byte ∷ [])

push_byte-IsPart :
    (byte : ℕ) (slug : Text)
    → IsPart slug
    → (longer : Text) × (push_byte byte slug ≡ ok longer)
      × IsPart longer
      × (length longer ≡ min slug_len (length slug + gain byte))
unfolding push_byte
push_byte-IsPart byte slug (letters, short) = elim (Bool-cases (is_used byte slug)) [
  | inl e ↦
      let (c, found, letter) = letter_at byte in
      let longer : length (slug ++ c ∷ []) ≡ length slug + 1 = length-append slug (c ∷ []) in
      (
        slug ++ c ∷ [],
        rw (e, found) refl,
        (all-append is_ascii_alphanumeric slug c letters letter, ground arith),
        ground arith,
      )
  | inr e ↦ (slug, rw e refl, (letters, short), ground arith)
]

push_bytes-IsPart :
    (bytes : List ℕ) (slug : Text)
    → IsPart slug
    → (longer : Text) × (push_bytes bytes slug ≡ ok longer)
      × IsPart longer
      × (length longer ≡ min slug_len (length slug + count_where (λ b. ltb b reject_from) bytes))
unfolding push_bytes
push_bytes-IsPart [] slug h = (slug, refl, h, omega (arith, h.1))
push_bytes-IsPart (byte ∷ bytes) slug h =
    let (next, e, part, l) = push_byte-IsPart byte slug h in
    let (last, e', part', l') = push_bytes-IsPart bytes next part in
    (last, rw e e', part', ground arith)

draw_from-IsPart :
    (source : ℕ → List ℕ) (rounds round : ℕ) (slug : Text)
    → IsPart slug
    → slug_len ≤ length slug + usable source rounds round
    → (drawn : Text) × (draw_from source rounds round slug ≡ ok drawn)
      × IsPart drawn
      × (length drawn ≡ slug_len)
unfolding draw_from
draw_from-IsPart source zero round slug h enough = (slug, rw (full) refl, h, omega (arith, h.1))
  where
    full : ltb (length slug) slug_len ≡ false
    full = ground (arith, h.1)
draw_from-IsPart source (suc rounds) round slug h enough =
    elim (Bool-cases (ltb (length slug) slug_len)) [
      | inl e ↦
          let (next, pushed, part, l) = push_bytes-IsPart (source round) slug h in
          let (last, drawn, part', l') =
            draw_from-IsPart source rounds (round + 1) next part (omega (arith, l, h.1)) in
          (last, rw (e, pushed) drawn, part', l')
      | inr e ↦ (slug, rw e refl, h, ground (arith, h.1))
    ]

ascii_byte_len : (s : Text) → all is_ascii_alphanumeric s ≡ true → byte_len s ≡ length s
ascii_byte_len [] h = refl
ascii_byte_len (c ∷ s) h = ground (arith, ascii_byte_len s)

-- If among the bytes of the first `rounds` rounds twelve are below 248, the loop ends within them
-- and gives a slug, which `parse` accepts as it is: every index is inside the alphabet.
pub generate-parse_slug :
    (source : ℕ → List ℕ) (rounds : ℕ)
    → slug_len ≤ usable source rounds 0
    → (slug : Text) × (generate source rounds ≡ ok slug) × (parse_slug slug ≡ some slug)
unfolding generate parse_slug
generate-parse_slug source rounds enough =
    let (slug, drawn, part, l) =
      draw_from-IsPart source rounds 0 [] (refl, omega arith) (omega arith) in
    let size : byte_len slug ≡ slug_len = ascii_byte_len slug part.0 ∙ l in
    (slug, drawn, rw (size, part.0) refl)
