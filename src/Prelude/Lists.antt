-- ===== src/Prelude/Lists.antt =====
-- Lists measured and indexed by native numbers, and a predicate over all their entries.
use Prim.Native.Nat.{ℕ, zero, suc, ◌+◌}
use mathlib.Core.Path.{◌≡◌, refl, ap}
use mathlib.Core.List.{List, [], ◌∷◌, ◌++◌, map}
use mathlib.Core.Option.{Option, none, some}
use native.Mathlib.Omega.{arith}

module _ {ℓ} {A : Type ℓ} where
  abbrev pub length : List A → ℕ
  length [] = 0
  length (_ ∷ xs) = suc (length xs)

  abbrev pub get_elem? : List A → ℕ → Option A
  get_elem? [] _ = none
  get_elem? (x ∷ xs) zero = some x
  get_elem? (x ∷ xs) (suc i) = get_elem? xs i

  abbrev pub take : ℕ → List A → List A
  take zero _ = []
  take (suc n) [] = []
  take (suc n) (x ∷ xs) = x ∷ take n xs

  abbrev pub replicate : ℕ → A → List A
  replicate zero _ = []
  replicate (suc n) a = a ∷ replicate n a

  -- `iter().enumerate()`, from a first index on.
  abbrev pub enumerate : ℕ → List A → List (ℕ × A)
  enumerate _ [] = []
  enumerate i (x ∷ xs) = (i, x) ∷ enumerate (i + 1) xs

  abbrev pub All {κ} : (A → Type κ) → List A → Type κ
  All P [] = Unit
  All P (x ∷ xs) = P x × All P xs

-- The numbers `first .. first + n`, in order.
abbrev pub range : ℕ → ℕ → List ℕ
range _ zero = []
range first (suc n) = first ∷ range (first + 1) n

module _ {ℓ} {A : Type ℓ} where
  pub length-append : (xs ys : List A) → length (xs ++ ys) ≡ length xs + length ys
  length-append [] ys = omega arith
  length-append (x ∷ xs) ys = omega (arith, length-append xs ys)

  pub length-replicate : (n : ℕ) (a : A) → length (replicate n a) ≡ n
  length-replicate zero a = refl
  length-replicate (suc n) a = ap suc (length-replicate n a)

  pub length-enumerate : (i : ℕ) (xs : List A) → length (enumerate i xs) ≡ length xs
  length-enumerate i [] = refl
  length-enumerate i (x ∷ xs) = ap suc (length-enumerate (i + 1) xs)

  pub length-map {κ} : {B : Type κ} (f : A → B) (xs : List A) → length (map f xs) ≡ length xs
  length-map f [] = refl
  length-map f (x ∷ xs) = ap suc (length-map f xs)

module _ {ℓ κ μ} {A : Type ℓ} (P : A → Type κ) (Q : A → Type μ) where
  pub All-map : ((x : A) → P x → Q x) → (xs : List A) → All P xs → All Q xs
  All-map f [] h = tt
  All-map f (x ∷ xs) h = (f x h.0, All-map f xs h.1)

module _ {ℓ κ} {A : Type ℓ} (P : A → Type κ) where
  pub All-append : (xs ys : List A) → All P xs → All P ys → All P (xs ++ ys)
  All-append [] ys h k = k
  All-append (x ∷ xs) ys h k = (h.0, All-append xs ys h.1 k)

-- Each two entries are related, the earlier one first.
abbrev pub Pairwise {ℓ κ} : {A : Type ℓ} → (A → A → Type κ) → List A → Type κ
Pairwise R [] = Unit
Pairwise R (x ∷ xs) = All (R x) xs × Pairwise R xs

module _ {ℓ κ} {A : Type ℓ} (P : A → Type κ) where
  pub All-enumerate : (i : ℕ) (xs : List A) → All P xs → All (λ (e : ℕ × A). P e.1) (enumerate i xs)
  All-enumerate i [] h = tt
  All-enumerate i (x ∷ xs) h = (h.0, All-enumerate (i + 1) xs h.1)

  pub All-of_enumerate :
      (i : ℕ) (xs : List A) → All (λ (e : ℕ × A). P e.1) (enumerate i xs) → All P xs
  All-of_enumerate i [] h = tt
  All-of_enumerate i (x ∷ xs) h = (h.0, All-of_enumerate (i + 1) xs h.1)

module _ {ℓ κ} {A : Type ℓ} (R : A → A → Type κ) where
  pub Pairwise-append_last :
      (xs : List A) (y : A) → Pairwise R xs → All (λ x. R x y) xs → Pairwise R (xs ++ y ∷ [])
  Pairwise-append_last [] y h k = (tt, tt)
  Pairwise-append_last (x ∷ xs) y h k =
      (All-append (R x) xs (y ∷ []) h.0 (k.0, tt), Pairwise-append_last xs y h.1 k.1)

  pub Pairwise-enumerate :
      (i : ℕ) (xs : List A) → Pairwise R xs → Pairwise (λ (d e : ℕ × A). R d.1 e.1) (enumerate i xs)
  Pairwise-enumerate i [] h = tt
  Pairwise-enumerate i (x ∷ xs) h =
      (All-enumerate (R x) (i + 1) xs h.0, Pairwise-enumerate (i + 1) xs h.1)

  pub Pairwise-of_enumerate :
      (i : ℕ) (xs : List A) → Pairwise (λ (d e : ℕ × A). R d.1 e.1) (enumerate i xs) → Pairwise R xs
  Pairwise-of_enumerate i [] h = tt
  Pairwise-of_enumerate i (x ∷ xs) h =
      (All-of_enumerate (R x) (i + 1) xs h.0, Pairwise-of_enumerate (i + 1) xs h.1)

pub length-range : (first n : ℕ) → length (range first n) ≡ n
length-range first zero = refl
length-range first (suc n) = ap suc (length-range (first + 1) n)
