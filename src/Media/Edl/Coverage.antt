-- ===== src/Media/Edl/Coverage.antt =====
-- Which milliseconds of the recording an edit keeps, and which its cuts remove.
use sintade.Prelude.{
  ℕ, ◌+◌, ◌≤◌, ◌<◌, ◌≡◌, refl, sym, ap, ◌∙◌, inl, inr, Bool, true, false, not, ◌&&◌, ◌||◌, List, [],
  ◌∷◌, ltb, leb, ◌==◌, arith, All, enumerate, Bool-cases, or_assoc, ok, ◌↔◌, any, ok-injective,
  map_ok-eq-ok,
}
use sintade.Prelude.Sort.{sort_by, All-sort_by, any-sort_by}
use sintade.Media.Edl.{
  KeptRange, Edl, key_before, join_ranges, join_sorted, new, sum_len, kept_ms, cuts_from, cuts,
  only_range, is_identity,
}
use sintade.Media.Edl.Valid.{IsRange, Gapped, Apart, IsEdl, Fits, check_ranges_sound, new-Accepted}

-- `start_ms` inclusive to `end_ms` exclusive.
abbrev pub holds : ℕ → KeptRange → Bool
holds t r = leb r.start_ms t && ltb t r.end_ms

abbrev pub covers : ℕ → List KeptRange → Bool
covers t = any (holds t)

abbrev holds_entry : ℕ → ℕ × KeptRange → Bool
holds_entry t e = holds t e.1

any-enumerate : (t i : ℕ) (rs : List KeptRange) → any (holds_entry t) (enumerate i rs) ≡ covers t rs
any-enumerate t i [] = refl
any-enumerate t i (r ∷ rs) = ap (λ b. holds t r || b) (any-enumerate t (i + 1) rs)

-- Two ranges that touch hold together what their union holds.
touching_holds :
    (duration t : ℕ) (a b : KeptRange)
    → IsRange duration a
    → IsRange duration b
    → (b.start_ms == a.end_ms) ≡ true
    → holds t (record a { end_ms = b.end_ms }) ≡ (holds t a || holds t b)
touching_holds duration t a b v w h = ground arith

covers-join_ranges :
    (duration t : ℕ) (last : KeptRange) (before : ℕ) (es : List (ℕ × KeptRange))
    (kept : List KeptRange)
    → IsRange duration last
    → All (Fits duration) es
    → join_ranges last before es ≡ ok kept
    → covers t kept ≡ (holds t last || any (holds_entry t) es)
unfolding join_ranges
covers-join_ranges duration t last before [] kept v vs h = sym (ap (covers t) (ok-injective h))
covers-join_ranges duration t last before ((index, r) ∷ es) kept v vs h =
    elim (Bool-cases (ltb r.start_ms last.end_ms)) [
      | inl over ↦ absurd (cc (rw over at h))
      | inr clear ↦ elim (Bool-cases (r.start_ms == last.end_ms)) [
        | inl touches ↦
            covers-join_ranges duration t (record last { end_ms = r.end_ms }) index es kept
              (ground arith) vs.1 (rw (clear, touches) at h)
            ∙ ap (λ b. b || any (holds_entry t) es)
                (touching_holds duration t last r v vs.0 touches)
            ∙ or_assoc (holds t last) (holds t r) (any (holds_entry t) es)
        | inr gap ↦
            let (ks, e, same) =
              map_ok-eq-ok (λ ks. last ∷ ks) (join_ranges r index es) (rw (clear, gap) at h) in
            sym (ap (covers t) same)
            ∙ ap (λ b. holds t last || b) (covers-join_ranges duration t r index es ks vs.0 vs.1 e)
      ]
    ]

-- The cuts from a cursor on: what lies behind it and in none of the ranges.
abbrev Ordered : ℕ → ℕ → List KeptRange → Type 0
Ordered duration cursor [] = cursor ≤ duration
Ordered duration cursor (r ∷ rest) =
    (cursor ≤ r.start_ms) × (r.start_ms < r.end_ms) × Ordered duration r.end_ms rest

Ordered-le :
    (duration cursor : ℕ) (rs : List KeptRange) → Ordered duration cursor rs → cursor ≤ duration
Ordered-le duration cursor [] h = h
Ordered-le duration cursor (r ∷ rs) h = omega (arith, Ordered-le duration r.end_ms rs h.2)

not-covers :
    (duration cursor t : ℕ) (rs : List KeptRange)
    → Ordered duration cursor rs
    → t < cursor
    → covers t rs ≡ false
not-covers duration cursor t [] h lt = refl
not-covers duration cursor t (r ∷ rs) h lt = ground (arith, not-covers duration r.end_ms t rs h.2)

covers-cuts_from :
    (duration cursor t : ℕ) (rs : List KeptRange)
    → Ordered duration cursor rs
    → covers t (cuts_from duration cursor rs)
      ≡ (ltb t duration && leb cursor t && not (covers t rs))
unfolding cuts_from
covers-cuts_from duration cursor t [] h = ground arith
covers-cuts_from duration cursor t (r ∷ rs) h = ground (
  arith,
  Ordered-le duration r.end_ms rs h.2,
  covers-cuts_from duration r.end_ms t rs h.2,
  not-covers duration r.end_ms t rs h.2,
)

sum_len-cuts_from :
    (duration cursor : ℕ) (rs : List KeptRange)
    → Ordered duration cursor rs
    → cursor + sum_len rs + sum_len (cuts_from duration cursor rs) ≡ duration
unfolding cuts_from
sum_len-cuts_from duration cursor [] h = ground arith
sum_len-cuts_from duration cursor (r ∷ rs) h =
    ground (arith, sum_len-cuts_from duration r.end_ms rs h.2)

Gapped-Ordered :
    (duration cursor : ℕ) (rs : List KeptRange)
    → cursor ≤ duration
    → All (IsRange duration) rs
    → Gapped cursor rs
    → Ordered duration cursor rs
Gapped-Ordered duration cursor [] h vs g = h
Gapped-Ordered duration cursor (r ∷ rs) h vs g =
    (omega arith, omega arith, Gapped-Ordered duration r.end_ms rs vs.0.inside vs.1 g.1)

IsEdl-Ordered : (edl : Edl) → IsEdl edl → Ordered edl.source_duration_ms 0 edl.ranges
IsEdl-Ordered edl v = go edl.ranges v.each v.apart
  where
    go :
        (rs : List KeptRange)
        → All (IsRange edl.source_duration_ms) rs
        → Apart rs
        → Ordered edl.source_duration_ms 0 rs
    go [] vs a = absurd a
    go (r ∷ rs) vs a = (
      omega arith,
      omega arith,
      Gapped-Ordered edl.source_duration_ms r.end_ms rs vs.0.inside vs.1 a,
    )

covers-join_sorted :
    (duration t : ℕ) (es : List (ℕ × KeptRange)) (kept : List KeptRange)
    → All (Fits duration) es
    → join_sorted es ≡ ok kept
    → covers t kept ≡ any (holds_entry t) es
unfolding join_sorted
covers-join_sorted duration t [] kept vs h = sym (ap (covers t) (ok-injective h))
covers-join_sorted duration t ((index, r) ∷ es) kept vs h =
    covers-join_ranges duration t r index es kept vs.0 vs.1 h

-- An accepted edit keeps exactly the milliseconds that the submitted ranges name, whatever the
-- order they came in and however they were joined.
pub covers-new :
    (ranges : List KeptRange) (duration : ℕ) (edl : Edl) (t : ℕ)
    → new ranges duration ≡ ok edl
    → covers t edl.ranges ≡ covers t ranges
covers-new ranges duration edl t h =
    let a = new-Accepted ranges duration edl h in
    let entries = enumerate 0 ranges in
    covers-join_sorted duration t (sort_by key_before entries) edl.ranges
      (All-sort_by key_before (Fits duration) entries
        (check_ranges_sound duration entries a.checked))
      a.joined
    ∙ any-sort_by key_before (holds_entry t) entries
    ∙ any-enumerate t 0 ranges

-- The cuts of a valid edit hold exactly the milliseconds of the recording that it does not keep,
-- and nothing past the recording's end.
pub covers-cuts :
    (edl : Edl) (t : ℕ)
    → IsEdl edl
    → covers t (cuts edl) ≡ (ltb t edl.source_duration_ms && not (covers t edl.ranges))
unfolding cuts
covers-cuts edl t v =
    ground (arith, covers-cuts_from edl.source_duration_ms 0 t edl.ranges (IsEdl-Ordered edl v))

-- In a valid edit the kept time and the time of the cuts add up to the recording's duration.
pub kept_ms-cuts :
    (edl : Edl) → IsEdl edl → kept_ms edl + sum_len (cuts edl) ≡ edl.source_duration_ms
unfolding kept_ms cuts
kept_ms-cuts edl v =
    omega (arith, sum_len-cuts_from edl.source_duration_ms 0 edl.ranges (IsEdl-Ordered edl v))

identity_of_no_cuts :
    (duration : ℕ) (rs : List KeptRange)
    → All (IsRange duration) rs
    → Apart rs
    → (only_range duration rs ≡ true) ↔ (cuts_from duration 0 rs ≡ [])
unfolding cuts_from
identity_of_no_cuts duration [] vs a = absurd a
identity_of_no_cuts duration (r ∷ []) vs a = ground arith
identity_of_no_cuts duration (r ∷ s ∷ rs) vs a = ground arith

-- A valid edit counts as changing nothing exactly when it cuts nothing.
pub is_identity_iff : (edl : Edl) → IsEdl edl → (is_identity edl ≡ true) ↔ (cuts edl ≡ [])
unfolding is_identity cuts
is_identity_iff edl v = identity_of_no_cuts edl.source_duration_ms edl.ranges v.each v.apart
