-- ===== src/Prelude/Table.antt =====
-- Database tables as lists of rows: what the SQL statements of the code do.
use sintade.Prelude.Tests.{if◌then◌else◌, Bool-cases}
use sintade.Prelude.Lists.{length}
use sintade.Prelude.Search.{any, filter, find}
use Prim.Native.Nat.{ℕ, suc}
use mathlib.Core.Path.{◌≡◌, refl, sym, subst}
use mathlib.Core.Logic.{inl, inr}
use mathlib.Core.Bool.{Bool, true, false, not}
use mathlib.Core.Option.{Option, none, some}
use mathlib.Core.List.{List, [], ◌∷◌}
use native.Mathlib.Omega.{arith}

module _ {ℓ} {A : Type ℓ} where
  abbrev pub update_found : (A → Bool) → (A → A) → Option A → Option A
  update_found p f none = none
  update_found p f (some x) = some (if p x then f x else x)

  -- `UPDATE ... SET f WHERE p`.
  abbrev pub update_where : (A → Bool) → (A → A) → List A → List A
  update_where p f [] = []
  update_where p f (x ∷ xs) = (if p x then f x else x) ∷ update_where p f xs

  -- `SELECT count(*) ... WHERE p`; also the rows that an update with that condition affects.
  abbrev pub count_where : (A → Bool) → List A → ℕ
  count_where p [] = 0
  count_where p (x ∷ xs) = if p x then suc (count_where p xs) else count_where p xs

  -- `DELETE ... WHERE p`.
  abbrev pub delete_where : (A → Bool) → List A → List A
  delete_where p = filter (λ x. not (p x))

  pub length-update_where :
      (p : A → Bool) (f : A → A) (xs : List A) → length (update_where p f xs) ≡ length xs
  length-update_where p f [] = refl
  length-update_where p f (x ∷ xs) = ground (arith, length-update_where p f xs)

  pub count_where-find : (p : A → Bool) (xs : List A) → find p xs ≡ none → count_where p xs ≡ 0
  count_where-find p [] h = refl
  count_where-find p (x ∷ xs) h = ground (arith, count_where-find p xs)

  -- An update that takes its rows out of the condition leaves none that meet it.
  pub any-update_where :
      (q p : A → Bool) (f : A → A) (xs : List A)
      → ((x : A) → p x ≡ true → q (f x) ≡ false)
      → ((x : A) → p x ≡ false → q x ≡ false)
      → any q (update_where p f xs) ≡ false
  any-update_where q p f [] gone none_else = refl
  any-update_where q p f (x ∷ xs) gone none_else = elim (Bool-cases (p x)) [
    | inl e ↦ rw (e, gone x e) (any-update_where q p f xs gone none_else)
    | inr e ↦ rw (e, none_else x e) (any-update_where q p f xs gone none_else)
  ]

  -- An update that keeps a condition as it is.
  pub any-update_kept :
      (q p : A → Bool) (f : A → A) (xs : List A)
      → ((x : A) → q (f x) ≡ q x)
      → any q (update_where p f xs) ≡ any q xs
  any-update_kept q p f [] same = refl
  any-update_kept q p f (x ∷ xs) same = elim (Bool-cases (p x)) [
    | inl e ↦ rw (e, same x, any-update_kept q p f xs same) refl
    | inr e ↦ rw (e, any-update_kept q p f xs same) refl
  ]

  -- What an update finds first, it takes into the condition.
  pub any-update_found :
      (p q : A → Bool) (f : A → A) (xs : List A) (x : A)
      → find p xs ≡ some x
      → (p x ≡ true → q (f x) ≡ true)
      → any q (update_where p f xs) ≡ true
  any-update_found p q f [] x h k = cc
  any-update_found p q f (y ∷ xs) x h k = elim (Bool-cases (p y)) [
    | inl here ↦
        let same : y ≡ x = cc (rw here at h) in
        let kept : q (f y) ≡ true =
          subst (λ z. q (f z) ≡ true) (sym same) (k (subst (λ z. p z ≡ true) same here)) in
        rw (here, kept) refl
    | inr later ↦ rw (later, any-update_found p q f xs x (rw later at h) k) (ground arith)
  ]

  pub any-update_stays :
      (q p : A → Bool) (f : A → A) (xs : List A)
      → ((x : A) → p x ≡ true → q x ≡ true → q (f x) ≡ true)
      → any q xs ≡ true
      → any q (update_where p f xs) ≡ true
  any-update_stays q p f [] h k = cc
  any-update_stays q p f (x ∷ xs) h k = elim (Bool-cases (q x)) [
    | inl here ↦ elim (Bool-cases (p x)) [
      | inl e ↦ rw (e, h x e here) refl
      | inr e ↦ rw (e, here) refl
    ]
    | inr there ↦ rw (any-update_stays q p f xs h (rw there at k)) (ground arith)
  ]

  pub count_where-none : (p : A → Bool) (xs : List A) → any p xs ≡ false → count_where p xs ≡ 0
  count_where-none p [] h = refl
  count_where-none p (x ∷ xs) h = ground (arith, count_where-none p xs)

  -- Where the update does not change what a search looks for, the search finds the same row.
  pub find-update_where :
      (q p : A → Bool) (f : A → A) (xs : List A)
      → ((x : A) → p x ≡ true → q (f x) ≡ q x)
      → find q (update_where p f xs) ≡ update_found p f (find q xs)
  find-update_where q p f [] h = refl
  find-update_where q p f (x ∷ xs) h = elim (Bool-cases (p x)) [
    | inl e ↦
        rw (e, h x e)
          (elim (Bool-cases (q x)) [
            | inl found ↦ rw (found, e)
            | inr other ↦ rw other (find-update_where q p f xs h)
          ])
    | inr e ↦ rw e (elim (Bool-cases (q x)) [
      | inl found ↦ rw (found, e)
      | inr other ↦ rw other (find-update_where q p f xs h)
    ])
  ]

-- Two lists with entries that are related one to one.
abbrev pub Pointwise {ℓ} : {A : Type ℓ} → (A → A → Type 0) → List A → List A → Type 0
Pointwise R [] [] = Unit
Pointwise R [] (_ ∷ _) = ⊥
Pointwise R (_ ∷ _) [] = ⊥
Pointwise R (x ∷ xs) (y ∷ ys) = R x y × Pointwise R xs ys

module _ {ℓ} {A : Type ℓ} (R : A → A → Type 0) where
  pub Pointwise-update_where :
      (p : A → Bool) (f : A → A)
      → ((x : A) → p x ≡ true → R x (f x))
      → ((x : A) → p x ≡ false → R x x)
      → (xs : List A) → Pointwise R xs (update_where p f xs)
  Pointwise-update_where p f h k [] = tt
  Pointwise-update_where p f h k (x ∷ xs) = elim (Bool-cases (p x)) [
    | inl e ↦ rw e (h x e, Pointwise-update_where p f h k xs)
    | inr e ↦ rw e (k x e, Pointwise-update_where p f h k xs)
  ]

  pub Pointwise-self : ((x : A) → R x x) → (xs : List A) → Pointwise R xs xs
  Pointwise-self h [] = tt
  Pointwise-self h (x ∷ xs) = (h x, Pointwise-self h xs)

  pub Pointwise-trans :
      ((x y z : A) → R x y → R y z → R x z)
      → (xs ys zs : List A) → Pointwise R xs ys
      → Pointwise R ys zs
      → Pointwise R xs zs
  Pointwise-trans h [] [] [] p q = tt
  Pointwise-trans h [] [] (_ ∷ _) p q = q
  Pointwise-trans h [] (_ ∷ _) zs p q = absurd p
  Pointwise-trans h (_ ∷ _) [] zs p q = absurd p
  Pointwise-trans h (_ ∷ _) (_ ∷ _) [] p q = q
  Pointwise-trans h (x ∷ xs) (y ∷ ys) (z ∷ zs) p q =
      (h x y z p.0 q.0, Pointwise-trans h xs ys zs p.1 q.1)

module _ {ℓ} {A : Type ℓ} (R S : A → A → Type 0) where
  pub Pointwise-map :
      ((x y : A) → R x y → S x y) → (xs ys : List A) → Pointwise R xs ys → Pointwise S xs ys
  Pointwise-map h [] [] p = tt
  Pointwise-map h [] (_ ∷ _) p = p
  Pointwise-map h (_ ∷ _) [] p = p
  Pointwise-map h (x ∷ xs) (y ∷ ys) p = (h x y p.0, Pointwise-map h xs ys p.1)
