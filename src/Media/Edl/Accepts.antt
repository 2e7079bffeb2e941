-- ===== src/Media/Edl/Accepts.antt =====
-- `Edl::new` accepts exactly the submissions that the documented rules allow: an independent
-- statement of "valid", with no sorting and no joining.
use sintade.Prelude.{
  ℕ, ◌≤◌, ◌<◌, ◌≡◌, ◌≢◌, ◌↔◌, refl, ◌⊎◌, inl, inr, List, [], ◌∷◌, ltb, ◌==◌, arith, All, All-map,
  All-enumerate, All-of_enumerate, Pairwise, Pairwise-enumerate, Pairwise-of_enumerate, length,
  enumerate, Bool-cases, Result, ok, err, map_ok,
}
use sintade.Prelude.Sort.{
  ByKey, IsSorted, sort_by, sort_by-IsSorted, All-sort_by, Pairwise-sort_by, Pairwise-of_sort_by,
}
use sintade.Media.Edl.{
  KeptRange, Edl, EdlError, max_ranges, check_ranges, key_before, join_ranges, join_sorted, new,
}
use sintade.Media.Edl.Valid.{IsRange, Fits, check_ranges_sound, new-Accepted}

-- Two ranges that share no millisecond.
abbrev pub Disjoint : KeptRange → KeptRange → Type 0
Disjoint a b = (a.end_ms ≤ b.start_ms) ⊎ (b.end_ms ≤ a.start_ms)

pub record Acceptable (ranges : List KeptRange) (duration : ℕ) : Type 0 where
  pub known : duration ≢ 0
  pub some_range : 0 < length ranges
  pub few : length ranges ≤ max_ranges
  pub each : All (IsRange duration) ranges
  pub apart : Pairwise Disjoint ranges

pub check_ranges_complete :
    (duration : ℕ) (es : List (ℕ × KeptRange))
    → All (Fits duration) es
    → check_ranges duration es ≡ ok tt
unfolding check_ranges
check_ranges_complete duration [] h = refl
check_ranges_complete duration ((index, r) ∷ es) h =
    ground (arith, check_ranges_complete duration es h.1)

-- Each range starts at or behind the end of the one in front of it.
abbrev Chain : ℕ → List (ℕ × KeptRange) → Type 0
Chain end [] = Unit
Chain end ((_, r) ∷ es) = (end ≤ r.start_ms) × Chain r.end_ms es

abbrev Joins : Result EdlError (List KeptRange) → Type 0
Joins (ok _) = Unit
Joins (err _) = ⊥

Joins-map_ok :
    (f : List KeptRange → List KeptRange) (r : Result EdlError (List KeptRange))
    → Joins r
    → Joins (map_ok f r)
Joins-map_ok f (ok _) h = h
Joins-map_ok f (err _) h = h

Joins-of_map_ok :
    (f : List KeptRange → List KeptRange) (r : Result EdlError (List KeptRange))
    → Joins (map_ok f r)
    → Joins r
Joins-of_map_ok f (ok _) h = h
Joins-of_map_ok f (err _) h = h

join_ranges-Joins :
    (last : KeptRange) (before : ℕ) (es : List (ℕ × KeptRange))
    → Chain last.end_ms es
    → Joins (join_ranges last before es)
unfolding join_ranges
join_ranges-Joins last before [] h = tt
join_ranges-Joins last before ((index, r) ∷ es) h = elim (Bool-cases (ltb r.start_ms last.end_ms)) [
  | inl over ↦ absurd (ground arith)
  | inr clear ↦ elim (Bool-cases (r.start_ms == last.end_ms)) [
    | inl touches ↦
        rw (clear, touches) (join_ranges-Joins (record last { end_ms = r.end_ms }) index es h.1)
    | inr gap ↦
        rw (clear, gap)
          (Joins-map_ok (λ kept. last ∷ kept) (join_ranges r index es)
            (join_ranges-Joins r index es h.1))
  ]
]

join_ranges-Chain :
    (last : KeptRange) (before : ℕ) (es : List (ℕ × KeptRange))
    → Joins (join_ranges last before es)
    → Chain last.end_ms es
unfolding join_ranges
join_ranges-Chain last before [] h = tt
join_ranges-Chain last before ((index, r) ∷ es) h = elim (Bool-cases (ltb r.start_ms last.end_ms)) [
  | inl over ↦ absurd (rw over at h)
  | inr clear ↦ elim (Bool-cases (r.start_ms == last.end_ms)) [
    | inl touches ↦ (
      ground arith,
      join_ranges-Chain (record last { end_ms = r.end_ms }) index es (rw (clear, touches) at h),
    )
    | inr gap ↦ (
      ground arith,
      join_ranges-Chain r index es
          (Joins-of_map_ok (λ kept. last ∷ kept) (join_ranges r index es) (rw (clear, gap) at h)),
    )
  ]
]

abbrev DisjointEntries : ℕ × KeptRange → ℕ × KeptRange → Type 0
DisjointEntries d e = Disjoint d.1 e.1

abbrev start_of : ℕ × KeptRange → ℕ
start_of e = e.1.start_ms

key_before-ByKey : ByKey key_before start_of
unfolding key_before
key_before-ByKey = record { smaller = λ x y h. ground arith; larger = λ x y h. ground arith }

-- In order of the starts, disjoint ranges form a chain.
Chain-of_Pairwise :
    (duration : ℕ) (e : ℕ × KeptRange) (es : List (ℕ × KeptRange))
    → All (Fits duration) (e ∷ es)
    → IsSorted start_of (e ∷ es)
    → Pairwise DisjointEntries (e ∷ es)
    → Chain e.1.end_ms es
Chain-of_Pairwise duration e [] v s p = tt
Chain-of_Pairwise duration e (d ∷ es) v s p =
    (ground arith, Chain-of_Pairwise duration d es v.1 s.1 p.1)

Chain-starts :
    (duration end : ℕ) (es : List (ℕ × KeptRange))
    → All (Fits duration) es
    → Chain end es
    → All (λ e. end ≤ start_of e) es
Chain-starts duration end [] v c = tt
Chain-starts duration end ((_, r) ∷ es) v c = (
  c.0,
  All-map (λ e. r.end_ms ≤ start_of e) (λ e. end ≤ start_of e) (λ e h. ground arith) es
      (Chain-starts duration r.end_ms es v.1 c.1),
)

Pairwise-of_Chain :
    (duration : ℕ) (end : ℕ) (es : List (ℕ × KeptRange))
    → All (Fits duration) es
    → Chain end es
    → Pairwise DisjointEntries es
Pairwise-of_Chain duration end [] v c = tt
Pairwise-of_Chain duration end (e ∷ es) v c = (
  All-map (λ d. e.1.end_ms ≤ start_of d) (DisjointEntries e) (λ d h. inl h) es
      (Chain-starts duration e.1.end_ms es v.1 c.1),
  Pairwise-of_Chain duration e.1.end_ms es v.1 c.1,
)

join_sorted-Joins : (es : List (ℕ × KeptRange)) → Chain 0 es → Joins (join_sorted es)
unfolding join_sorted
join_sorted-Joins [] c = tt
join_sorted-Joins ((index, r) ∷ es) c = join_ranges-Joins r index es c.1

join_sorted-Chain : (es : List (ℕ × KeptRange)) → Joins (join_sorted es) → Chain 0 es
unfolding join_sorted
join_sorted-Chain [] j = tt
join_sorted-Chain ((index, r) ∷ es) j = (omega arith, join_ranges-Chain r index es j)

Chain-of_sorted :
    (duration : ℕ) (es : List (ℕ × KeptRange))
    → All (Fits duration) es
    → IsSorted start_of es
    → Pairwise DisjointEntries es
    → Chain 0 es
Chain-of_sorted duration [] v s p = tt
Chain-of_sorted duration (e ∷ es) v s p = (omega arith, Chain-of_Pairwise duration e es v s p)

Joins-value :
    (r : Result EdlError (List KeptRange)) → Joins r → (kept : List KeptRange) × (r ≡ ok kept)
Joins-value (ok kept) j = (kept, refl)
Joins-value (err e) j = absurd j

Joins-of_ok : (r : Result EdlError (List KeptRange)) {kept : List KeptRange} → r ≡ ok kept → Joins r
Joins-of_ok (ok _) h = tt
Joins-of_ok (err _) h = absurd (cc)

DisjointEntries-symmetric : (d e : ℕ × KeptRange) → DisjointEntries d e → DisjointEntries e d
DisjointEntries-symmetric d e h = omega arith

pub new_of_steps :
    (ranges kept : List KeptRange) (duration : ℕ)
    → duration ≢ 0
    → 0 < length ranges
    → length ranges ≤ max_ranges
    → check_ranges duration (enumerate 0 ranges) ≡ ok tt
    → join_sorted (sort_by key_before (enumerate 0 ranges)) ≡ ok kept
    → new ranges duration ≡ ok (record { ranges = kept; source_duration_ms = duration })
unfolding new
new_of_steps [] kept duration d s f c j = absurd (omega arith)
new_of_steps (r ∷ rs) kept duration d s f c j = ground arith

-- The steps of `new` on an acceptable submission.
new_of_Acceptable :
    (ranges : List KeptRange) (duration : ℕ)
    → Acceptable ranges duration
    → (edl : Edl) × (new ranges duration ≡ ok edl)
new_of_Acceptable ranges duration a =
    let entries = enumerate 0 ranges in
    let fits : All (Fits duration) entries = All-enumerate (IsRange duration) 0 ranges a.each in
    let (kept, joined) = Joins-value (join_sorted (sort_by key_before entries)) (
      join_sorted-Joins (sort_by key_before entries) (
        Chain-of_sorted duration (sort_by key_before entries)
          (All-sort_by key_before (Fits duration) entries fits)
          (sort_by-IsSorted key_before start_of key_before-ByKey entries)
          (Pairwise-sort_by key_before DisjointEntries DisjointEntries-symmetric entries
            (Pairwise-enumerate Disjoint 0 ranges a.apart)))) in
    (
      record { ranges = kept; source_duration_ms = duration },
      new_of_steps ranges kept duration a.known a.some_range a.few
          (check_ranges_complete duration entries fits) joined,
    )

Acceptable-of_new :
    (ranges : List KeptRange) (duration : ℕ) (edl : Edl)
    → new ranges duration ≡ ok edl
    → Acceptable ranges duration
Acceptable-of_new ranges duration edl h =
    let a = new-Accepted ranges duration edl h in
    let entries = enumerate 0 ranges in
    let fits : All (Fits duration) entries = check_ranges_sound duration entries a.checked in
    record {
      known = a.known;
      some_range = a.some_range;
      few = a.few;
      each = All-of_enumerate (IsRange duration) 0 ranges fits;
      apart = Pairwise-of_enumerate Disjoint 0 ranges (
          Pairwise-of_sort_by key_before DisjointEntries DisjointEntries-symmetric entries (
            Pairwise-of_Chain duration 0 (sort_by key_before entries)
              (All-sort_by key_before (Fits duration) entries fits)
              (join_sorted-Chain (sort_by key_before entries)
                (Joins-of_ok (join_sorted (sort_by key_before entries)) a.joined))));
    }

-- `new` accepts a submission if and only if the recording's duration is known, there are 1 to 100
-- ranges, each of them is at least 100 ms long and ends inside the recording, and no two of them
-- share a millisecond.
pub new-Acceptable_iff :
    (ranges : List KeptRange) (duration : ℕ)
    → ((edl : Edl) × (new ranges duration ≡ ok edl)) ↔ Acceptable ranges duration
new-Acceptable_iff ranges duration =
    (λ s. Acceptable-of_new ranges duration s.0 s.1, new_of_Acceptable ranges duration)
