-- ===== src/Prelude/Search.antt =====
-- Searches in lists by a Boolean test: `any`, `all`, `filter`, `find`.
use Prim.Native.Nat.{◌≤◌}
use mathlib.Core.Path.{◌≡◌, refl, sym, subst}
use mathlib.Core.Logic.{inl, inr}
use mathlib.Core.Bool.{Bool, true, false, ◌&&◌, ◌||◌}
use mathlib.Core.Option.{Option, none, some}
use mathlib.Core.List.{List, [], ◌∷◌, ◌++◌}
use native.Mathlib.Omega.{arith}
use sintade.Prelude.Tests.{if◌then◌else◌, Bool-cases}
use sintade.Prelude.Lists.{length, All}

module _ {ℓ} {A : Type ℓ} where
  abbrev pub any : (A → Bool) → List A → Bool
  any p [] = false
  any p (x ∷ xs) = p x || any p xs

  abbrev pub all : (A → Bool) → List A → Bool
  all p [] = true
  all p (x ∷ xs) = p x && all p xs

  abbrev pub filter : (A → Bool) → List A → List A
  filter p [] = []
  filter p (x ∷ xs) = if p x then x ∷ filter p xs else filter p xs

  abbrev pub find : (A → Bool) → List A → Option A
  find p [] = none
  find p (x ∷ xs) = if p x then some x else find p xs

  pub any-append : (p : A → Bool) (xs ys : List A) → any p (xs ++ ys) ≡ (any p xs || any p ys)
  any-append p [] ys = refl
  any-append p (x ∷ xs) ys = ground (arith, any-append p xs ys)

  -- What is found stays found when entries are appended.
  pub find-append :
      (p : A → Bool) (xs ys : List A) (x : A) → find p xs ≡ some x → find p (xs ++ ys) ≡ some x
  find-append p [] ys x h = cc
  find-append p (z ∷ xs) ys x h = ground (arith, find-append p xs ys x)

  pub find-append_new :
      (p : A → Bool) (xs : List A) (y : A)
      → any p xs ≡ false
      → p y ≡ true
      → find p (xs ++ y ∷ []) ≡ some y
  find-append_new p [] y h k = ground arith
  find-append_new p (x ∷ xs) y h k = ground (arith, find-append_new p xs y)

  -- A search finds the one entry that it can find.
  pub find-only :
      (p : A → Bool) (xs : List A) (x : A)
      → any p xs ≡ true
      → All (λ y. p y ≡ true → y ≡ x) xs
      → find p xs ≡ some x
  find-only p [] x h k = cc
  find-only p (y ∷ xs) x h k = elim (Bool-cases (p y)) [
    | inl e ↦ rw (e, k.0 e) refl
    | inr e ↦ rw e (find-only p xs x (rw e at h) k.1)
  ]

  pub any-found :
      (p q : A → Bool) (xs : List A) (x : A) → find p xs ≡ some x → q x ≡ true → any q xs ≡ true
  any-found p q [] x h k = cc
  any-found p q (y ∷ xs) x h k = elim (Bool-cases (p y)) [
    | inl e ↦
        let same : y ≡ x = cc (rw e at h) in
        let here : q y ≡ true = subst (λ z. q z ≡ true) (sym same) k in rw here refl
    | inr e ↦ rw (any-found p q xs x (rw e at h) k) (ground arith)
  ]

  pub any-weaker :
      (p q : A → Bool) (xs : List A)
      → ((x : A) → p x ≡ true → q x ≡ true)
      → any p xs ≡ true
      → any q xs ≡ true
  any-weaker p q [] h k = cc
  any-weaker p q (x ∷ xs) h k = elim (Bool-cases (p x)) [
    | inl e ↦ rw (h x e) refl
    | inr e ↦ rw (any-weaker p q xs h (rw e at k)) (ground arith)
  ]

  pub any-filter_last :
      (p q : A → Bool) (xs : List A) (x : A)
      → p x ≡ true
      → q x ≡ true
      → any p (filter q (xs ++ x ∷ [])) ≡ true
  any-filter_last p q [] x h k = ground arith
  any-filter_last p q (y ∷ xs) x h k = ground (arith, any-filter_last p q xs x)

  pub length-filter-le : (p : A → Bool) (xs : List A) → length (filter p xs) ≤ length xs
  length-filter-le p [] = omega arith
  length-filter-le p (x ∷ xs) = ground (arith, length-filter-le p xs)

  pub All-filter {κ} :
      (P : A → Type κ) (p : A → Bool) (xs : List A) → All P xs → All P (filter p xs)
  All-filter P p [] h = tt
  All-filter P p (x ∷ xs) h = ground (arith, All-filter P p xs h.1)

  pub find_sound : (p : A → Bool) (xs : List A) (x : A) → find p xs ≡ some x → p x ≡ true
  find_sound p [] x h = cc
  find_sound p (y ∷ xs) x h = ground (arith, find_sound p xs x)

abbrev pub consed {ℓ} : {A : Type ℓ} → Option A → List A → List A
consed none xs = xs
consed (some x) xs = x ∷ xs

abbrev pub filter_map {ℓ κ} : {A : Type ℓ} {B : Type κ} → (A → Option B) → List A → List B
filter_map f [] = []
filter_map f (x ∷ xs) = consed (f x) (filter_map f xs)

module _ {ℓ} {A : Type ℓ} (p : A → Bool) where
  -- What a filter lets through holds for each entry that passes the test.
  pub All-of_filter {κ} :
      (P : A → Type κ) (xs : List A) → All P (filter p xs) → All (λ x. p x ≡ true → P x) xs
  All-of_filter P [] h = tt
  All-of_filter P (x ∷ xs) h = elim (Bool-cases (p x)) [
    | inl e ↦ let both = (rw e at h) in ((λ _. both.0), All-of_filter P xs both.1)
    | inr e ↦ ((λ k. absurd (differ e k)), All-of_filter P xs (rw e at h))
  ]
    where
      differ : p x ≡ false → p x ≡ true → ⊥
      differ e k = cc

  pub All-filter_passed {κ} :
      (P : A → Type κ) (xs : List A) → All P xs → All (λ x. P x × (p x ≡ true)) (filter p xs)
  All-filter_passed P [] h = tt
  All-filter_passed P (x ∷ xs) h = elim (Bool-cases (p x)) [
    | inl e ↦ rw e ((h.0, e), All-filter_passed P xs h.1)
    | inr e ↦ rw e (All-filter_passed P xs h.1)
  ]
