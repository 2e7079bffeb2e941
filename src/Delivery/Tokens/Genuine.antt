-- ===== src/Delivery/Tokens/Genuine.antt =====
-- Which tokens pass, and that an issued one does until it expires.
use sintade.Prelude.{
  ℕ, zero, suc, ◌+◌, ◌*◌, ◌/◌, ◌%◌, ◌^◌, ◌<◌, ◌≡◌, refl, sym, ap, subst, ◌∙◌, Bool, true, false,
  not, List, [], ◌∷◌, ◌++◌, Option, none, some, Result, ok, err, ok_or, fail_if, ◌>>◌, leb, ◌==◌,
  if◌then◌else◌, length, All, All-append, all, length-append, append_assoc, append-nil, arith,
  Option-cases, inl, inr, bind-ok, ok-injective, ok_or-eq-ok, >>-eq-ok,
}
use sintade.Prelude.Text.{Text, text_eq, text_eq_sound, text_eq_refl}
use sintade.Prelude.Lines.{split_once}
use sintade.Delivery.Tokens.{
  TokenError, invalid, expired, dot, to_be_bytes, from_be, from_be_bytes, is_expired,
  split_at_checked, payload_of, issue, verify,
}

length-to_be_bytes : (n v : ℕ) → length (to_be_bytes n v) ≡ n
unfolding to_be_bytes
length-to_be_bytes zero v = refl
length-to_be_bytes (suc n) v =
    omega (
      arith,
      length-append (to_be_bytes n (v / 256)) (v % 256 ∷ []),
      length-to_be_bytes n (v / 256),
    )

from_be-append : (h : ℕ) (bs : List ℕ) (b : ℕ) → from_be h (bs ++ b ∷ []) ≡ from_be h bs * 256 + b
from_be-append h [] b = refl
from_be-append h (c ∷ bs) b = from_be-append (h * 256 + c) bs b

abbrev bound : ℕ → ℕ
bound zero = 1
bound (suc n) = 256 * bound n

from_be_bytes-to_be_bytes : (n v : ℕ) → v < bound n → from_be_bytes (to_be_bytes n v) ≡ v
unfolding to_be_bytes
from_be_bytes-to_be_bytes zero v h = omega arith
from_be_bytes-to_be_bytes (suc n) v h =
    from_be-append 0 (to_be_bytes n (v / 256)) (v % 256)
    ∙ rw (from_be_bytes-to_be_bytes n (v / 256) (omega arith)) (omega arith)

abbrev pub IsByte : ℕ → Type 0
IsByte b = b < 256

-- Bytes read as a number and written again, behind those of the number in front of them.
to_be_bytes-from_be :
    (n h m : ℕ) (bs : List ℕ)
    → All IsByte bs
    → n + length bs ≡ m
    → to_be_bytes m (from_be h bs) ≡ to_be_bytes n h ++ bs
unfolding to_be_bytes
to_be_bytes-from_be n h m [] bytes e =
    let same : m ≡ n = omega arith in rw (same, append-nil (to_be_bytes n h)) refl
to_be_bytes-from_be n h m (b ∷ bs) bytes e =
    to_be_bytes-from_be (suc n) (h * 256 + b) m bs bytes.1 (omega arith)
    ∙ (let high : (h * 256 + b) / 256 ≡ h = omega (arith, bytes.0) in
        let low : (h * 256 + b) % 256 ≡ b = omega (arith, bytes.0) in
        rw (high, low) (append_assoc (to_be_bytes n h) (b ∷ []) bs))

to_be_bytes-IsByte : (n v : ℕ) → All IsByte (to_be_bytes n v)
unfolding to_be_bytes
to_be_bytes-IsByte zero v = tt
to_be_bytes-IsByte (suc n) v =
    All-append IsByte (to_be_bytes n (v / 256)) _ (to_be_bytes-IsByte n (v / 256)) (omega arith, tt)

split_at-append :
    {A : Type 0} (n : ℕ) (xs ys : List A)
    → length xs ≡ n
    → split_at_checked n (xs ++ ys) ≡ some (xs, ys)
split_at-append zero [] ys e = refl
split_at-append zero (x ∷ xs) ys e = absurd (omega arith)
split_at-append (suc n) [] ys e = absurd (omega arith)
split_at-append (suc n) (x ∷ xs) ys e = rw (split_at-append n xs ys (omega arith)) refl

split_at_sound :
    {A : Type 0} (n : ℕ) (xs front back : List A)
    → split_at_checked n xs ≡ some (front, back)
    → xs ≡ front ++ back
split_at_sound {A = A} zero xs front back e = cc
split_at_sound {A = A} (suc n) [] front back e = cc
split_at_sound {A = A} (suc n) (x ∷ xs) front back e = elim (Option-cases (split_at_checked n xs)) [
  | inl no_split ↦ absurd (nothing no_split e)
  | inr ((a, b), found) ↦
      let both = first a b (rw found at e) in
      rw (both.0, sym both.1) (ap (◌∷◌ x) (split_at_sound n xs a b found))
]
  where
    nothing :
        split_at_checked n xs ≡ none → split_at_checked (suc n) (x ∷ xs) ≡ some (front, back) → ⊥
    nothing k l = cc

    first :
        (a b : List A)
        → ◌≡◌ {A = Option (List A × List A)} (some (x ∷ a, b)) (some (front, back))
        → (front ≡ x ∷ a) × (b ≡ back)
    first a b k = (cc, cc)

split_once-dot :
    (a b : Text)
    → all (λ c. not (c == b'.')) a ≡ true
    → split_once dot (a ++ b'.' ∷ b) ≡ some (a, b)
unfolding split_once
split_once-dot [] b h = refl
split_once-dot (c ∷ a) b h = ground (arith, split_once-dot a b)

passed_test : (b : Bool) → not b ≡ false → b ≡ true
passed_test true h = refl
passed_test false h = cc

All-of_append : (xs ys : List ℕ) → All IsByte (xs ++ ys) → All IsByte ys
All-of_append [] ys h = h
All-of_append (x ∷ xs) ys h = All-of_append xs ys h.1

-- What the parts of a payload say that pass the checks.
payload_parts :
    (recording payload front back : List ℕ) (expires_at : ℕ)
    → All IsByte payload
    → split_at_checked 16 payload ≡ some (front, back)
    → not (length back == 8) ≡ false
    → not (text_eq front recording) ≡ false
    → ◌≡◌ {A = Result TokenError ℕ} (ok (from_be_bytes back)) (ok expires_at)
    → payload ≡ recording ++ to_be_bytes 8 expires_at
unfolding to_be_bytes
payload_parts recording payload front back expires_at bytes halves size mine same =
    let apart : payload ≡ front ++ back = split_at_sound 16 payload front back halves in
    let id : front ≡ recording = text_eq_sound front recording (passed_test _ mine) in
    let eight : 0 + length back ≡ 8 = ground arith in
    let written : to_be_bytes 8 (from_be_bytes back) ≡ back =
      to_be_bytes-from_be 0 0 8 back (All-of_append front back (subst (All IsByte) apart bytes))
        eight in
    let value : from_be_bytes back ≡ expires_at = ok-injective same in
    apart ∙ rw (id, ← value, written) refl

still_fresh :
    (back : List ℕ) (now expires_at : ℕ)
    → is_expired (from_be_bytes back) now ≡ false
    → ◌≡◌ {A = Result TokenError ℕ} (ok (from_be_bytes back)) (ok expires_at)
    → now < expires_at
still_fresh back now expires_at fresh same =
    let value : from_be_bytes back ≡ expires_at = ok-injective same in ground arith

module _ (mac : List ℕ → List ℕ) (encode : List ℕ → Text) (decode : Text → Option (List ℕ)) where
  -- An issued token passes for its recording, with its expiry, until the expiry; from then on it
  -- is refused as expired.
  pub verify-issue :
      (recording : List ℕ) (expires_at now : ℕ)
      → ((bytes : List ℕ) → All IsByte bytes → decode (encode bytes) ≡ some bytes)
      → ((bytes : List ℕ) → all (λ c. not (c == b'.')) (encode bytes) ≡ true)
      → ((bytes : List ℕ) → All IsByte (mac bytes))
      → length recording ≡ 16
      → All IsByte recording
      → expires_at < 2 ^ 63
      → verify mac encode decode (issue mac encode decode recording expires_at) recording now
        ≡ (if leb expires_at now then err expired else ok expires_at)
  unfolding verify issue
  verify-issue recording expires_at now back no_dot mac_bytes size bytes small =
      rw
        (
          split_once-dot (encode payload) (encode (mac payload)) (no_dot payload),
          back payload (All-append IsByte recording _ bytes (to_be_bytes-IsByte 8 expires_at)),
          back (mac payload) (mac_bytes payload),
          text_eq_refl (mac payload),
          split_at-append 16 recording (to_be_bytes 8 expires_at) size,
          length-to_be_bytes 8 expires_at,
          text_eq_refl recording,
          from_be_bytes-to_be_bytes 8 expires_at (omega arith),
        )
        last
    where
      payload : List ℕ
      payload = payload_of mac encode decode recording expires_at

      last :
          (fail_if (is_expired expires_at now) expired >> ok expires_at)
          ≡ (if leb expires_at now then err expired else ok expires_at)
      last = ground arith

  -- A token that passes holds exactly the recording and the expiry that it passes for, with their
  -- MAC: neither another recording nor another expiry passes without a MAC of its own payload.
  pub verify_sound :
      (token : Text) (recording : List ℕ) (now expires_at : ℕ)
      → ((text : Text) (bytes : List ℕ) → decode text ≡ some bytes → All IsByte bytes)
      → verify mac encode decode token recording now ≡ ok expires_at
      → (parts : Text × Text) × (split_once dot token ≡ some parts)
        × (decode parts.0 ≡ some (recording ++ to_be_bytes 8 expires_at))
        × (decode parts.1 ≡ some (mac (recording ++ to_be_bytes 8 expires_at)))
        × (now < expires_at)
  unfolding verify
  verify_sound token recording now expires_at bytes h =
      let (parts, h1, e1) = bind-ok (ok_or (split_once dot token) invalid) _ h in
      let (payload, h2, e2) = bind-ok (ok_or (decode parts.0) invalid) _ h1 in
      let (signature, h3, e3) = bind-ok (ok_or (decode parts.1) invalid) _ h2 in
      let (genuine, h4) =
        >>-eq-ok (not (text_eq (mac payload) signature)) invalid _ expires_at h3 in
      let (halves, h5, e5) = bind-ok (ok_or (split_at_checked 16 payload) invalid) _ h4 in
      let (size, h6) = >>-eq-ok (not (length halves.1 == 8)) invalid _ expires_at h5 in
      let (mine, h7) = >>-eq-ok (not (text_eq halves.0 recording)) invalid _ expires_at h6 in
      let (fresh, h8) =
        >>-eq-ok (is_expired (from_be_bytes halves.1) now) expired _ expires_at h7 in
      let bounded : All IsByte payload =
        bytes parts.0 payload (ok_or-eq-ok (decode parts.0) invalid payload e2) in
      let whole : payload ≡ recording ++ to_be_bytes 8 expires_at =
        payload_parts recording payload halves.0 halves.1 expires_at bounded
          (ok_or-eq-ok (split_at_checked 16 payload) invalid halves e5) size mine h8 in
      let tag : mac payload ≡ signature =
        text_eq_sound (mac payload) signature (passed_test _ genuine) in
      (
        parts,
        ok_or-eq-ok (split_once dot token) invalid parts e1,
        subst (λ p. decode parts.0 ≡ some p) whole
            (ok_or-eq-ok (decode parts.0) invalid payload e2),
        subst (λ s. decode parts.1 ≡ some s) (sym tag ∙ ap mac whole)
            (ok_or-eq-ok (decode parts.1) invalid signature e3),
        still_fresh halves.1 now expires_at fresh h8,
      )

  -- A token passes only before its expiry.
  pub verify-lt :
      (token : Text) (recording : List ℕ) (now expires_at : ℕ)
      → verify mac encode decode token recording now ≡ ok expires_at
      → now < expires_at
  unfolding verify
  verify-lt token recording now expires_at h =
      let (parts, h1, _) = bind-ok (ok_or (split_once dot token) invalid) _ h in
      let (payload, h2, _) = bind-ok (ok_or (decode parts.0) invalid) _ h1 in
      let (signature, h3, _) = bind-ok (ok_or (decode parts.1) invalid) _ h2 in
      let (_, h4) = >>-eq-ok (not (text_eq (mac payload) signature)) invalid _ expires_at h3 in
      let (halves, h5, _) = bind-ok (ok_or (split_at_checked 16 payload) invalid) _ h4 in
      let (_, h6) = >>-eq-ok (not (length halves.1 == 8)) invalid _ expires_at h5 in
      let (_, h7) = >>-eq-ok (not (text_eq halves.0 recording)) invalid _ expires_at h6 in
      let (fresh, h8) =
        >>-eq-ok (is_expired (from_be_bytes halves.1) now) expired _ expires_at h7 in
      still_fresh halves.1 now expires_at fresh h8
