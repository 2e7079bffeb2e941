-- ===== src/Prelude/Sort.antt =====
-- `sort_by_key`, a stable sort, as an insertion sort over the strict order of the keys.
use sintade.Prelude.Tests.{if◌then◌else◌, Bool-cases}
use sintade.Prelude.Lists.{length, All, All-map, Pairwise}
use sintade.Prelude.Search.{any}
use Prim.Native.Nat.{ℕ, suc, ◌≤◌}
use mathlib.Core.Path.{◌≡◌, refl}
use mathlib.Core.Logic.{inl, inr}
use mathlib.Core.Bool.{Bool, true, false, ◌||◌}
use mathlib.Core.List.{List, [], ◌∷◌}
use native.Mathlib.Nat.{le_trans}
use native.Mathlib.Omega.{arith}

-- `before x y`: the key of `x` is smaller than the key of `y`.
module _ {ℓ} {A : Type ℓ} (before : A → A → Bool) where
  -- An entry goes in front of the first one that is not before it, so equal keys keep their order.
  unfoldable pub insert_sorted : A → List A → List A
  insert_sorted x [] = x ∷ []
  insert_sorted x (y ∷ ys) = if before y x then y ∷ insert_sorted x ys else x ∷ y ∷ ys

  unfoldable pub sort_by : List A → List A
  unfolding insert_sorted
  sort_by [] = []
  sort_by (x ∷ xs) = insert_sorted x (sort_by xs)

  length-insert_sorted : (x : A) (ys : List A) → length (insert_sorted x ys) ≡ suc (length ys)
  unfolding insert_sorted
  length-insert_sorted x [] = refl
  length-insert_sorted x (y ∷ ys) = ground (arith, length-insert_sorted x ys)

  pub length-sort_by : (xs : List A) → length (sort_by xs) ≡ length xs
  unfolding sort_by
  length-sort_by [] = refl
  length-sort_by (x ∷ xs) = ground (arith, length-insert_sorted x (sort_by xs), length-sort_by xs)

  any-insert_sorted :
      (p : A → Bool) (x : A) (ys : List A) → any p (insert_sorted x ys) ≡ (p x || any p ys)
  unfolding insert_sorted
  any-insert_sorted p x [] = refl
  any-insert_sorted p x (y ∷ ys) = ground (arith, any-insert_sorted p x ys)

  pub any-sort_by : (p : A → Bool) (xs : List A) → any p (sort_by xs) ≡ any p xs
  unfolding sort_by
  any-sort_by p [] = refl
  any-sort_by p (x ∷ xs) = ground (arith, any-insert_sorted p x (sort_by xs), any-sort_by p xs)

module _ {ℓ κ} {A : Type ℓ} (before : A → A → Bool) (P : A → Type κ) where
  pub All-insert_sorted : (x : A) (ys : List A) → P x → All P ys → All P (insert_sorted before x ys)
  unfolding insert_sorted
  All-insert_sorted x [] h k = (h, tt)
  All-insert_sorted x (y ∷ ys) h k = elim (Bool-cases (before y x)) [
    | inl e ↦ rw e (k.0, All-insert_sorted x ys h k.1)
    | inr e ↦ rw e (h, k)
  ]

  pub All-sort_by : (xs : List A) → All P xs → All P (sort_by before xs)
  unfolding sort_by
  All-sort_by [] h = tt
  All-sort_by (x ∷ xs) h = All-insert_sorted x (sort_by before xs) h.0 (All-sort_by xs h.1)

  All-of_insert_sorted : (x : A) (ys : List A) → All P (insert_sorted before x ys) → P x × All P ys
  unfolding insert_sorted
  All-of_insert_sorted x [] h = h
  All-of_insert_sorted x (y ∷ ys) h = elim (Bool-cases (before y x)) [
    | inl e ↦
        let later = rw e at h in
        let (p, ps) = All-of_insert_sorted x ys later.1 in (p, (later.0, ps))
    | inr e ↦ rw e at h
  ]

  pub All-of_sort_by : (xs : List A) → All P (sort_by before xs) → All P xs
  unfolding sort_by
  All-of_sort_by [] h = tt
  All-of_sort_by (x ∷ xs) h =
      let (p, ps) = All-of_insert_sorted x (sort_by before xs) h in (p, All-of_sort_by xs ps)

-- A symmetric relation between each two entries holds before sorting if and only if after.
module _ {ℓ κ} {A : Type ℓ} (before : A → A → Bool) (R : A → A → Type κ)
    (symmetric : (x y : A) → R x y → R y x) where
  Pairwise-insert_sorted :
      (x : A) (ys : List A) → All (R x) ys → Pairwise R ys → Pairwise R (insert_sorted before x ys)
  unfolding insert_sorted
  Pairwise-insert_sorted x [] h k = (tt, tt)
  Pairwise-insert_sorted x (y ∷ ys) h k = elim (Bool-cases (before y x)) [
    | inl e ↦ rw e (
      All-insert_sorted before (R y) x ys (symmetric x y h.0) k.0,
      Pairwise-insert_sorted x ys h.1 k.1,
    )
    | inr e ↦ rw e (h, k)
  ]

  pub Pairwise-sort_by : (xs : List A) → Pairwise R xs → Pairwise R (sort_by before xs)
  unfolding sort_by
  Pairwise-sort_by [] h = tt
  Pairwise-sort_by (x ∷ xs) h =
      Pairwise-insert_sorted x (sort_by before xs) (All-sort_by before (R x) xs h.0)
        (Pairwise-sort_by xs h.1)

  Pairwise-of_insert_sorted :
      (x : A) (ys : List A) → Pairwise R (insert_sorted before x ys) → All (R x) ys × Pairwise R ys
  unfolding insert_sorted
  Pairwise-of_insert_sorted x [] h = (tt, tt)
  Pairwise-of_insert_sorted x (y ∷ ys) h = elim (Bool-cases (before y x)) [
    | inl e ↦
        let later = rw e at h in
        let (p, ps) = All-of_insert_sorted before (R y) x ys later.0 in
        let (q, qs) = Pairwise-of_insert_sorted x ys later.1 in ((symmetric y x p, q), (ps, qs))
    | inr e ↦ rw e at h
  ]

  pub Pairwise-of_sort_by : (xs : List A) → Pairwise R (sort_by before xs) → Pairwise R xs
  unfolding sort_by
  Pairwise-of_sort_by [] h = tt
  Pairwise-of_sort_by (x ∷ xs) h =
      let (p, ps) = Pairwise-of_insert_sorted x (sort_by before xs) h in
      (All-of_sort_by before (R x) xs p, Pairwise-of_sort_by xs ps)

-- Every entry's key is at most the keys behind it.
abbrev pub IsSorted {ℓ} : {A : Type ℓ} → (A → ℕ) → List A → Type 0
IsSorted key [] = Unit
IsSorted key (x ∷ xs) = All (λ y. key x ≤ key y) xs × IsSorted key xs

-- What the strict order of the keys has to say about a key for the result to be sorted by it.
pub record ByKey {ℓ} {A : Type ℓ} (before : A → A → Bool) (key : A → ℕ) : Type ℓ where
  pub smaller : (x y : A) → before x y ≡ true → key x ≤ key y
  pub larger : (x y : A) → before x y ≡ false → key y ≤ key x

module _ {ℓ} {A : Type ℓ} (before : A → A → Bool) (key : A → ℕ) (by_key : ByKey before key) where
  insert_sorted-IsSorted :
      (x : A) (ys : List A) → IsSorted key ys → IsSorted key (insert_sorted before x ys)
  unfolding insert_sorted
  insert_sorted-IsSorted x [] h = (tt, tt)
  insert_sorted-IsSorted x (y ∷ ys) h = elim (Bool-cases (before y x)) [
    | inl e ↦ rw e (
      All-insert_sorted before (λ z. key y ≤ key z) x ys (by_key.smaller y x e) h.0,
      insert_sorted-IsSorted x ys h.1,
    )
    | inr e ↦ rw e (
      (
        by_key.larger y x e,
        All-map (λ z. key y ≤ key z) (λ z. key x ≤ key z) (λ z k. le_trans (by_key.larger y x e) k)
            ys h.0,
      ),
      h,
    )
  ]

  -- The sorted list is in order of its keys.
  pub sort_by-IsSorted : (xs : List A) → IsSorted key (sort_by before xs)
  unfolding sort_by
  sort_by-IsSorted [] = tt
  sort_by-IsSorted (x ∷ xs) = insert_sorted-IsSorted x (sort_by before xs) (sort_by-IsSorted xs)

-- Sorting a sorted list changes nothing.
pub sort_by-sorted {ℓ} :
    {A : Type ℓ} (before : A → A → Bool) (key : A → ℕ)
    → ((x y : A) → key x ≤ key y → before y x ≡ false)
    → (xs : List A) → IsSorted key xs
    → sort_by before xs ≡ xs
unfolding sort_by insert_sorted
sort_by-sorted before key strict [] h = refl
sort_by-sorted {A = A} before key strict (x ∷ xs) h =
    rw (sort_by-sorted before key strict xs h.1) (in_front xs h.0)
  where
    in_front : (ys : List A) → All (λ y. key x ≤ key y) ys → insert_sorted before x ys ≡ x ∷ ys
    in_front [] k = refl
    in_front (y ∷ ys) k = rw (strict x y k.0) refl
