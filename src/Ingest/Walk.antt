-- ===== src/Ingest/Walk.antt =====
-- The loop of `finalize` that walks the expected indexes and the received ones in step.
use sintade.Prelude.{
  ℕ, zero, suc, ◌+◌, ◌≤◌, ◌<◌, ◌≡◌, refl, Bool, false, not, List, [], ◌∷◌, ◌++◌, ltb, ◌==◌,
  if◌then◌else◌, length, arith, ap₂, sym, All-map, ◌-◌, ◌∙◌, ltb→lt, length-append, append-nil,
  append_assoc, any, filter, range, take, All, Bool-cases, inl, inr,
}

abbrev pub max_missing_listed : ℕ
max_missing_listed = 1000

-- `have.peek() == Some(&idx)`.
abbrev pub peeks : ℕ → List ℕ → Bool
peeks idx [] = false
peeks idx (h ∷ _) = h == idx

abbrev pub advance : List ℕ → List ℕ
advance [] = []
advance (_ ∷ hs) = hs

-- The indexes listed as missing so far, and how many are missing.
pub record Missing : Type 0 where
  pub listed : List ℕ
  pub total : ℕ

abbrev pub note_missing : ℕ → Missing → Missing
note_missing idx m = record {
  listed = if ltb (length m.listed) max_missing_listed then m.listed ++ idx ∷ [] else m.listed;
  total = m.total + 1;
}

-- The rounds left, from `idx` on.
unfoldable pub walk : ℕ → ℕ → List ℕ → Missing → Missing
walk zero idx have m = m
walk (suc rounds) idx have m =
    let here = peeks idx have in
    walk rounds (idx + 1) (if here then advance have else have)
      (if here then m else note_missing idx m)

abbrev pub no_missing : Missing
no_missing = record { listed = []; total = 0 }

-- In increasing order, each above the one in front of it, from `low` on.
abbrev pub Ascending : ℕ → List ℕ → Type 0
Ascending low [] = Unit
Ascending low (x ∷ xs) = (low ≤ x) × Ascending (suc x) xs

abbrev pub member : ℕ → List ℕ → Bool
member x = any (λ y. y == x)

-- What is missing of the indexes from `idx` on.
abbrev pub gaps : ℕ → ℕ → List ℕ → List ℕ
gaps idx rounds have = filter (λ i. not (member i have)) (range idx rounds)

Ascending-not_member : (low i : ℕ) (xs : List ℕ) → Ascending low xs → i < low → member i xs ≡ false
Ascending-not_member low i [] a h = refl
Ascending-not_member low i (x ∷ xs) a h = ground (arith, Ascending-not_member (suc x) i xs a.1)

Ascending-mono : (low high : ℕ) (xs : List ℕ) → high ≤ low → Ascending low xs → Ascending high xs
Ascending-mono low high [] h a = tt
Ascending-mono low high (x ∷ xs) h a = (omega arith, a.1)

-- An index that is too small to be met does not change what is missing.
gaps-drop :
    (x idx rounds : ℕ) (xs : List ℕ) → x < idx → gaps idx rounds (x ∷ xs) ≡ gaps idx rounds xs
gaps-drop x idx zero xs h = refl
gaps-drop x idx (suc rounds) xs h = ground (arith, gaps-drop x (idx + 1) rounds xs)

abbrev walked : Missing → List ℕ → Missing
walked m [] = m
walked m (i ∷ is) = walked (note_missing i m) is

walk-gaps :
    (rounds idx : ℕ) (have : List ℕ) (m : Missing)
    → Ascending idx have
    → walk rounds idx have m ≡ walked m (gaps idx rounds have)
unfolding walk
walk-gaps zero idx have m a = refl
walk-gaps (suc rounds) idx [] m a = walk-gaps rounds (idx + 1) [] (note_missing idx m) tt
walk-gaps (suc rounds) idx (h ∷ hs) m a = elim (Bool-cases (h == idx)) [
  | inl here ↦ rw here (
      rw (gaps-drop h (idx + 1) rounds hs (ground arith))
        (walk-gaps rounds (idx + 1) hs m (Ascending-mono (suc h) (idx + 1) hs (ground arith) a.1)))
  | inr gap ↦
      rw (gap, Ascending-not_member (suc h) idx hs a.1 (ground arith))
        (walk-gaps rounds (idx + 1) (h ∷ hs) (note_missing idx m) (ground arith, a.1))
]

take-nil : (n : ℕ) → take {A = ℕ} n [] ≡ []
take-nil zero = refl
take-nil (suc n) = refl

room_left : (limit n : ℕ) → n < limit → limit - n ≡ suc (limit - (n + 1))
room_left limit n h = omega arith

no_room : (limit n : ℕ) → ltb n limit ≡ false → limit - n ≡ 0
no_room limit n h = ground arith

total-walked : (m : Missing) (is : List ℕ) → (walked m is).total ≡ m.total + length is
total-walked m [] = omega arith
total-walked m (i ∷ is) = omega (arith, total-walked (note_missing i m) is)

-- Appending up to a limit, one entry at a time, is appending what there is room for.
listed_up_to : ℕ → List ℕ → List ℕ → List ℕ
listed_up_to limit xs [] = xs
listed_up_to limit xs (i ∷ is) =
    listed_up_to limit (if ltb (length xs) limit then xs ++ i ∷ [] else xs) is

listed_up_to-take :
    (limit : ℕ) (xs is : List ℕ) → listed_up_to limit xs is ≡ xs ++ take (limit - length xs) is
unfolding listed_up_to
listed_up_to-take limit xs [] = rw (take-nil, append-nil)
listed_up_to-take limit xs (i ∷ is) = elim (Bool-cases (ltb (length xs) limit)) [
  | inl room ↦ rw room (
      rw (listed_up_to-take limit (xs ++ i ∷ []) is, length-append xs (i ∷ []))
        (rw (room_left limit (length xs) (ltb→lt (length xs) limit room), append_assoc) refl))
  | inr full ↦ rw full (rw (listed_up_to-take limit xs is, no_room limit (length xs) full))
]

listed-walked :
    (m : Missing) (is : List ℕ) → (walked m is).listed ≡ listed_up_to max_missing_listed m.listed is
unfolding listed_up_to
listed-walked m [] = refl
listed-walked m (i ∷ is) = listed-walked (note_missing i m) is

-- The walk finds exactly the indexes from 0 on that were not received: it counts them all, and
-- lists the first thousand.
pub walk_lem :
    (rounds : ℕ) (have : List ℕ)
    → Ascending 0 have
    → ((walk rounds 0 have no_missing).listed ≡ take max_missing_listed (gaps 0 rounds have))
      × ((walk rounds 0 have no_missing).total ≡ length (gaps 0 rounds have))
walk_lem rounds have a = rw (walk-gaps rounds 0 have no_missing a) (
  listed-walked no_missing (gaps 0 rounds have)
      ∙ listed_up_to-take max_missing_listed [] (gaps 0 rounds have),
  omega (arith, total-walked no_missing (gaps 0 rounds have)),
)

All-received :
    (rounds idx : ℕ) (have : List ℕ)
    → Ascending idx have
    → All (λ i. i < idx + rounds) have
    → gaps idx rounds have ≡ []
    → have ≡ range idx rounds
All-received zero idx [] a b g = refl
All-received zero idx (h ∷ hs) a b g = absurd (omega arith)
All-received (suc rounds) idx [] a b g = absurd (cc)
All-received (suc rounds) idx (h ∷ hs) a b g = elim (Bool-cases (h == idx)) [
  | inl here ↦
      let first : h ≡ idx = ground arith in
      let rest : gaps (idx + 1) rounds (h ∷ hs) ≡ [] = rw here at g in
      ap₂ ◌∷◌ first (
        All-received rounds (idx + 1) hs (Ascending-mono (suc h) (idx + 1) hs (omega arith) a.1)
          (All-map (λ i. i < idx + suc rounds) (λ i. i < idx + 1 + rounds) (λ i k. omega arith) hs
            b.1)
          (sym (gaps-drop h (idx + 1) rounds hs (omega arith)) ∙ rest))
  | inr gap ↦ absurd (cc (rw (gap, Ascending-not_member (suc h) idx hs a.1 (ground arith)) at g))
]

-- Where the walk counts nothing as missing, and nothing is too large, exactly the indexes
-- `0 .. rounds` were received.
pub received-of_walk :
    (rounds : ℕ) (have : List ℕ)
    → Ascending 0 have
    → All (λ i. i < rounds) have
    → (walk rounds 0 have no_missing).total ≡ 0
    → have ≡ range 0 rounds
received-of_walk rounds have a b w =
    All-received rounds 0 have a
      (All-map (λ i. i < rounds) (λ i. i < 0 + rounds) (λ i k. omega arith) have b)
      (nil_of_length (gaps 0 rounds have) (sym (walk_lem rounds have a).1 ∙ w))
  where
    nil_of_length : (xs : List ℕ) → length xs ≡ 0 → xs ≡ []
    nil_of_length [] h = refl
    nil_of_length (x ∷ xs) h = absurd (omega arith)
