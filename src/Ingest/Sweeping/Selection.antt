-- ===== src/Ingest/Sweeping/Selection.antt =====
-- Which takes the statements of a sweep select.
use sintade.Prelude.{
  ℕ, zero, suc, ◌≡◌, refl, ap, Bool, true, false, List, [], ◌∷◌, some, arith, All, All-map, any,
  filter, take, update_where, Bool-cases, inl, inr,
}
use sintade.Prelude.Sort.{sort_by, All-sort_by}
use sintade.Catalog.Recordings.{is_none}
use sintade.Ingest.Tables.{Take, Db, is_take, is_idle, same_take, created_before, is_purgeable}

All-where :
    (P : Take → Type 0) (p : Take → Bool) (xs : List Take)
    → All (λ x. p x ≡ true → P x) xs
    → All P (filter p xs)
All-where P p [] h = tt
All-where P p (x ∷ xs) h = elim (Bool-cases (p x)) [
  | inl e ↦ rw e (h.0 e, All-where P p xs h.1)
  | inr e ↦ rw e (All-where P p xs h.1)
]

All-take : (P : Take → Type 0) (n : ℕ) (xs : List Take) → All P xs → All P (take n xs)
All-take P zero xs h = tt
All-take P (suc n) [] h = tt
All-take P (suc n) (x ∷ xs) h = (h.0, All-take P n xs h.1)

-- The rows of a take are finalized.
abbrev pub IsFinalizedRow : ℕ → ℕ → Take → Type 0
IsFinalizedRow take_id ws t = is_take take_id ws t ≡ true → is_none t.finalized_at ≡ false

abbrev pub IsOther : ℕ → ℕ → Take → Type 0
IsOther take_id ws t = is_take take_id ws t ≡ false

IsOther-of_open :
    (take_id ws : ℕ) (t : Take)
    → IsFinalizedRow take_id ws t
    → is_none t.finalized_at ≡ true
    → IsOther take_id ws t
IsOther-of_open take_id ws t h e = elim (Bool-cases (is_take take_id ws t)) [
  | inl mine ↦ absurd (cc (h mine))
  | inr other ↦ other
]

-- A selection of takes that are not finalized has none of the take's rows.
pub selected-IsOther :
    (take_id ws : ℕ) (p : Take → Bool) (limit : ℕ) (takes : List Take)
    → ((t : Take) → p t ≡ true → is_none t.finalized_at ≡ true)
    → All (IsFinalizedRow take_id ws) takes
    → All (IsOther take_id ws) (take limit (sort_by created_before (filter p takes)))
selected-IsOther take_id ws p limit takes h rows =
    All-take (IsOther take_id ws) limit (sort_by created_before (filter p takes)) (
      All-sort_by created_before (IsOther take_id ws) (filter p takes) (
        All-where (IsOther take_id ws) p takes (
          All-map (IsFinalizedRow take_id ws) (λ t. p t ≡ true → IsOther take_id ws t)
            (λ t k e. IsOther-of_open take_id ws t k (h t e)) takes rows)))

pub idle-open :
    (cutoff : ℕ) (db : Db) (t : Take) → is_idle cutoff db t ≡ true → is_none t.finalized_at ≡ true
unfolding is_idle
idle-open cutoff db t h = ground arith

pub purgeable-open :
    (cutoff : ℕ) (db : Db) (t : Take)
    → is_purgeable cutoff db t ≡ true
    → is_none t.finalized_at ≡ true
unfolding is_purgeable
purgeable-open cutoff db t h = ground arith

abbrev pub mark : ℕ → Take → Take
mark now t = record t { abandoned_at = some now }

-- A row of the take is not among others.
not_selected :
    (take_id ws : ℕ) (t : Take) (idle : List Take)
    → is_take take_id ws t ≡ true
    → All (IsOther take_id ws) idle
    → any (same_take t) idle ≡ false
not_selected take_id ws t [] mine h = refl
not_selected take_id ws t (i ∷ idle) mine h =
    let rest = not_selected take_id ws t idle mine h.1 in let other = h.0 in ground (arith, rest)

pub marks-keep :
    (now take_id ws : ℕ) (idle takes : List Take)
    → All (IsOther take_id ws) idle
    → filter (is_take take_id ws) (update_where (λ t. any (same_take t) idle) (mark now) takes)
      ≡ filter (is_take take_id ws) takes
marks-keep now take_id ws idle [] h = refl
marks-keep now take_id ws idle (t ∷ takes) h = elim (Bool-cases (is_take take_id ws t)) [
  | inl mine ↦
      rw (not_selected take_id ws t idle mine h, mine)
        (ap (λ ts. t ∷ ts) (marks-keep now take_id ws idle takes h))
  | inr other ↦ elim (Bool-cases (any (same_take t) idle)) [
    | inl marked ↦ rw (marked, other) (marks-keep now take_id ws idle takes h)
    | inr kept ↦ rw (kept, other) (marks-keep now take_id ws idle takes h)
  ]
]

pub marks-IsFinalizedRow :
    (now take_id ws : ℕ) (p : Take → Bool) (takes : List Take)
    → All (IsFinalizedRow take_id ws) takes
    → All (IsFinalizedRow take_id ws) (update_where p (mark now) takes)
marks-IsFinalizedRow now take_id ws p [] h = tt
marks-IsFinalizedRow now take_id ws p (t ∷ takes) h = elim (Bool-cases (p t)) [
  | inl e ↦ rw e (h.0, marks-IsFinalizedRow now take_id ws p takes h.1)
  | inr e ↦ rw e (h.0, marks-IsFinalizedRow now take_id ws p takes h.1)
]
