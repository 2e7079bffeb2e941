-- ===== src/Media/Storage/Versions.antt =====
-- The files of one version of a recording, and of no other.
use sintade.Prelude.{
  ℕ, zero, suc, ◌/◌, ◌≡◌, ◌↔◌, refl, sym, ap, ap₂, subst, ◌∙◌, Bool, true, ◌&&◌, [], ◌∷◌, ◌++◌, inl,
  inr, Bool-cases, arith, leb, ltb, all, append_assoc,
}
use sintade.Prelude.Text.{
  Text, codes, decimal, decimal_digits, value, value-decimal, starts_with, starts_with-split,
  starts_with-append, append-injective,
}
use sintade.Media.Storage.{recording_base, edit_base, edit_prefix}

abbrev is_digit : ℕ → Bool
is_digit c = leb 48 c && leb c 57

all-append :
    (p : ℕ → Bool) (xs ys : Text) → all p xs ≡ true → all p ys ≡ true → all p (xs ++ ys) ≡ true
all-append p [] ys h k = k
all-append p (x ∷ xs) ys h k = ground (arith, all-append p xs ys)

decimal_digits-all : (fuel n : ℕ) → all is_digit (decimal_digits fuel n) ≡ true
unfolding decimal_digits
decimal_digits-all zero n = refl
decimal_digits-all (suc fuel) n = elim (Bool-cases (ltb n 10)) [
  | inl small ↦ rw small (ground arith)
  | inr large ↦ rw large (
      all-append is_digit (decimal_digits fuel (n / 10)) _ (decimal_digits-all fuel (n / 10))
        (ground arith))
]

decimal-all : (n : ℕ) → all is_digit (decimal n) ≡ true
unfolding decimal
decimal-all n = decimal_digits-all (suc n) n

-- Digits up to a slash are settled by the text.
digits-slash :
    (a b x y : Text)
    → all is_digit a ≡ true
    → all is_digit b ≡ true
    → a ++ b'/' ∷ x ≡ b ++ b'/' ∷ y
    → a ≡ b
digits-slash [] [] x y h k e = refl
digits-slash [] (d ∷ b) x y h k e = absurd (slash_digit d (cc) (ground arith))
  where
    slash_digit : (d : ℕ) → b'/' ≡ d → is_digit d ≡ true → ⊥
    slash_digit d p q = ground arith
digits-slash (c ∷ a) [] x y h k e = absurd (slash_digit c (cc) (ground arith))
  where
    slash_digit : (d : ℕ) → d ≡ b'/' → is_digit d ≡ true → ⊥
    slash_digit d p q = ground arith
digits-slash (c ∷ a) (d ∷ b) x y h k e =
    let same : c ≡ d = cc e in
    let rest = digits-slash a b x y (ground arith) (ground arith) (cc e) in
    ap₂ (λ z zs. z ∷ zs) same rest

module _ (show_id : ℕ → Text) where
  front : ℕ → ℕ → Text
  front ws rec = recording_base show_id ws rec ++ codes "/edits/"

  edit_base-front :
      (ws rec version : ℕ) (file : Text)
      → edit_base show_id ws rec version ++ file ≡ front ws rec ++ (decimal version ++ file)
  unfolding edit_base front
  edit_base-front ws rec version file =
      append_assoc (recording_base show_id ws rec) (codes "/edits/" ++ decimal version) file
      ∙ sym
          (append_assoc (recording_base show_id ws rec) (codes "/edits/") (decimal version ++ file))

  -- The prefix that a given up version is deleted by covers the files of that version only.
  pub starts_with-edit_prefix :
      (ws rec version other : ℕ) (file : Text)
      → (starts_with
            (edit_prefix show_id ws rec version)
            (edit_base show_id ws rec other ++ b'/' ∷ file)
          ≡ true)
        ↔ (version ≡ other)
  unfolding edit_prefix
  starts_with-edit_prefix ws rec version other file = (
    (λ h.
        let (rest, e) =
          starts_with-split (edit_base show_id ws rec version ++ codes "/")
            (edit_base show_id ws rec other ++ b'/' ∷ file) h in
        let whole : front ws rec ++ (decimal other ++ b'/' ∷ file)
            ≡ front ws rec ++ (decimal version ++ b'/' ∷ rest) =
          sym (edit_base-front ws rec other (b'/' ∷ file))
          ∙ e
          ∙ append_assoc (edit_base show_id ws rec version) (codes "/") rest
          ∙ edit_base-front ws rec version (b'/' ∷ rest) in
        let numbers : decimal other ++ b'/' ∷ file ≡ decimal version ++ b'/' ∷ rest =
          (append-injective (front ws rec) (front ws rec) _ _ refl whole).1 in
        let same : decimal other ≡ decimal version =
          digits-slash (decimal other) (decimal version) file rest (decimal-all other)
            (decimal-all version) numbers in
        omega (arith, ap value same, value-decimal other, value-decimal version)),
    (λ e.
        subst
          (λ v.
            starts_with (edit_base show_id ws rec version ++ codes "/")
              (edit_base show_id ws rec v ++ b'/' ∷ file)
            ≡ true)
          e
          (subst (λ text. starts_with (edit_base show_id ws rec version ++ codes "/") text ≡ true)
            (append_assoc (edit_base show_id ws rec version) (codes "/") file)
            (starts_with-append (edit_base show_id ws rec version ++ codes "/") file))),
  )
