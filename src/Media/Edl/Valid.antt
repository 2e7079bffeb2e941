-- ===== src/Media/Edl/Valid.antt =====
-- What `Edl::new` guarantees of the list that it returns.
use sintade.Prelude.{
  ℕ, suc, ◌+◌, ◌≤◌, ◌<◌, ◌≡◌, refl, inl, inr, true, List, [], ◌∷◌, ltb, ◌==◌, arith, All, enumerate,
  length, suc, ap, sym, length-enumerate, ◌≢◌, Bool-cases, ok, ok-injective, map_ok-eq-ok, subst,
}
use sintade.Prelude.Sort.{sort_by, All-sort_by, length-sort_by}
use native.Mathlib.Nat.{le_trans}
use sintade.Media.Edl.{
  KeptRange, Edl, min_range_ms, max_ranges, check_ranges, join_ranges, join_sorted, key_before, new,
}

-- A range that passes the checks: long enough, and inside the recording.
pub record IsRange (duration : ℕ) (r : KeptRange) : Type 0 where
  pub long : r.start_ms + min_range_ms ≤ r.end_ms
  pub inside : r.end_ms ≤ duration

-- Ranges from `cursor` on, in order, with a gap in front of each.
abbrev pub Gapped : ℕ → List KeptRange → Type 0
Gapped cursor [] = Unit
Gapped cursor (r ∷ rest) = (cursor < r.start_ms) × Gapped r.end_ms rest

-- In order, with a gap between each two.
abbrev pub Apart : List KeptRange → Type 0
Apart [] = ⊥
Apart (r ∷ rest) = Gapped r.end_ms rest

-- The invariant of an edit decision list.
pub record IsEdl (edl : Edl) : Type 0 where
  pub known : edl.source_duration_ms ≢ 0
  pub few : length edl.ranges ≤ max_ranges
  pub each : All (IsRange edl.source_duration_ms) edl.ranges
  pub apart : Apart edl.ranges

abbrev pub Fits : ℕ → ℕ × KeptRange → Type 0
Fits duration e = IsRange duration e.1

pub check_ranges_sound :
    (duration : ℕ) (es : List (ℕ × KeptRange))
    → check_ranges duration es ≡ ok tt
    → All (Fits duration) es
unfolding check_ranges
check_ranges_sound duration [] h = tt
check_ranges_sound duration ((index, r) ∷ es) h =
    (ground arith, check_ranges_sound duration es (ground arith))

touching_IsRange :
    {duration : ℕ} {last r : KeptRange}
    → IsRange duration last
    → IsRange duration r
    → (r.start_ms == last.end_ms) ≡ true
    → IsRange duration (record last { end_ms = r.end_ms })
touching_IsRange v w h = ground arith

-- What the loop returns from a last range that starts at `start` on.
abbrev JoinedFrom : ℕ → ℕ → List KeptRange → Type 0
JoinedFrom duration start [] = ⊥
JoinedFrom duration start (r ∷ rest) =
    (r.start_ms ≡ start) × IsRange duration r × All (IsRange duration) rest × Gapped r.end_ms rest

JoinedFrom-cons :
    (duration start : ℕ) (last : KeptRange) (kept : List KeptRange)
    → IsRange duration last
    → last.end_ms < start
    → JoinedFrom duration start kept
    → JoinedFrom duration last.start_ms (last ∷ kept)
JoinedFrom-cons duration start last [] v h j = absurd j
JoinedFrom-cons duration start last (r ∷ rest) v h j = (refl, v, (j.1, j.2), (omega arith, j.3))

-- The loop keeps the checks of each range, and leaves gaps.
join_ranges_sound :
    (duration : ℕ) (last : KeptRange) (before : ℕ) (es : List (ℕ × KeptRange))
    (kept : List KeptRange)
    → IsRange duration last
    → All (Fits duration) es
    → join_ranges last before es ≡ ok kept
    → JoinedFrom duration last.start_ms kept
unfolding join_ranges
join_ranges_sound duration last before [] kept v vs h =
    subst (JoinedFrom duration last.start_ms) (ok-injective h) (refl, v, tt, tt)
join_ranges_sound duration last before ((index, r) ∷ es) kept v vs h =
    elim (Bool-cases (ltb r.start_ms last.end_ms)) [
      | inl over ↦ absurd (cc (rw over at h))
      | inr clear ↦ elim (Bool-cases (r.start_ms == last.end_ms)) [
        | inl touches ↦
            join_ranges_sound duration (record last { end_ms = r.end_ms }) index es kept
              (touching_IsRange v vs.0 touches) vs.1 (rw (clear, touches) at h)
        | inr gap ↦
            let (ks, e, same) =
              map_ok-eq-ok (λ ks. last ∷ ks) (join_ranges r index es) (rw (clear, gap) at h) in
            subst (JoinedFrom duration last.start_ms) same (
              JoinedFrom-cons duration r.start_ms last ks v (ground arith)
                (join_ranges_sound duration r index es ks vs.0 vs.1 e))
      ]
    ]

join_sorted_sound :
    (duration : ℕ) (es : List (ℕ × KeptRange)) (kept : List KeptRange)
    → 0 < length es
    → All (Fits duration) es
    → join_sorted es ≡ ok kept
    → All (IsRange duration) kept × Apart kept
unfolding join_sorted
join_sorted_sound duration [] kept n vs h = absurd (omega arith)
join_sorted_sound duration ((index, r) ∷ es) kept n vs h =
    JoinedFrom-parts kept (join_ranges_sound duration r index es kept vs.0 vs.1 h)
  where
    JoinedFrom-parts :
        (kept : List KeptRange)
        → JoinedFrom duration r.start_ms kept
        → All (IsRange duration) kept × Apart kept
    JoinedFrom-parts [] j = absurd j
    JoinedFrom-parts (k ∷ ks) j = ((j.1, j.2), j.3)

-- The loop makes no new ranges.
length-join_ranges :
    (last : KeptRange) (before : ℕ) (es : List (ℕ × KeptRange)) (kept : List KeptRange)
    → join_ranges last before es ≡ ok kept
    → length kept ≤ suc (length es)
unfolding join_ranges
length-join_ranges last before [] kept h = ground arith
length-join_ranges last before ((index, r) ∷ es) kept h =
    elim (Bool-cases (ltb r.start_ms last.end_ms)) [
      | inl over ↦ absurd (cc (rw over at h))
      | inr clear ↦ elim (Bool-cases (r.start_ms == last.end_ms)) [
        | inl touches ↦ omega (
          arith,
          length-join_ranges (record last { end_ms = r.end_ms }) index es kept
              (rw (clear, touches) at h),
        )
        | inr gap ↦
            let (ks, e, same) =
              map_ok-eq-ok (λ ks. last ∷ ks) (join_ranges r index es) (rw (clear, gap) at h) in
            omega (arith, length-join_ranges r index es ks e, ap length (sym same))
      ]
    ]

length-joined :
    (kept : List KeptRange) (es : List (ℕ × KeptRange))
    → join_sorted es ≡ ok kept
    → length kept ≤ length es
unfolding join_sorted
length-joined kept [] h = ground arith
length-joined kept ((index, r) ∷ es) h = length-join_ranges r index es kept h

-- What a success of `new` says of each of its steps.
pub record Accepted (ranges : List KeptRange) (duration : ℕ) (edl : Edl) : Type 0 where
  pub known : duration ≢ 0
  pub some_range : 0 < length ranges
  pub few : length ranges ≤ max_ranges
  pub checked : check_ranges duration (enumerate 0 ranges) ≡ ok tt
  pub joined : join_sorted (sort_by key_before (enumerate 0 ranges)) ≡ ok edl.ranges
  pub measured : edl.source_duration_ms ≡ duration

pub new-Accepted :
    (ranges : List KeptRange) (duration : ℕ) (edl : Edl)
    → new ranges duration ≡ ok edl
    → Accepted ranges duration edl
unfolding new
new-Accepted [] duration edl h = ground arith
new-Accepted (r ∷ rs) duration edl h = ground arith

-- Whatever `new` accepts is a list of 1 to 100 ranges that are each at least 100 ms long and end inside
-- the recording, in order, with a gap between each two.
pub new-IsEdl :
    (ranges : List KeptRange) (duration : ℕ) (edl : Edl) → new ranges duration ≡ ok edl → IsEdl edl
new-IsEdl ranges duration edl h =
    let a = new-Accepted ranges duration edl h in
    let (each, apart) =
      join_sorted_sound duration (sort_by key_before (enumerate 0 ranges)) edl.ranges
        (rw (length-sort_by, length-enumerate) a.some_range)
        (All-sort_by key_before (Fits duration) (enumerate 0 ranges)
          (check_ranges_sound duration (enumerate 0 ranges) a.checked))
        a.joined in
    record {
      known = rw a.measured a.known;
      few =
          le_trans (length-joined edl.ranges (sort_by key_before (enumerate 0 ranges)) a.joined)
            (rw (length-sort_by, length-enumerate) a.few);
      each = rw a.measured each;
      apart = apart;
    }
