-- ===== src/Platform/Limits/Windows.antt =====
-- How many calls a window lets through.
use sintade.Prelude.{
  ℕ, ◌+◌, ◌≡◌, refl, ap, Bool, true, false, ◌&&◌, List, [], ◌∷◌, ◌++◌, leb, if◌then◌else◌, any,
  find, update_where, min, find-append_new, Bool-cases, inl, inr, arith, All,
}
use sintade.Prelude.Text.{Text, text_eq, text_eq_sound, text_eq_refl}
use sintade.Platform.Limits.{
  Bucket, Buckets, Check, has_key, window_start_of, count_in, counted, put, check,
}

-- The count of a key in a window.
abbrev pub used : Text → ℕ → Buckets → ℕ
used key start buckets = count_in start (find (has_key key) buckets)

used-update_where :
    (key : Text) (start count : ℕ) (buckets : Buckets)
    → any (has_key key) buckets ≡ true
    → used key start (update_where (has_key key) (counted start count) buckets) ≡ count
used-update_where key start count [] h = cc
used-update_where key start count (b ∷ buckets) h = elim (Bool-cases (text_eq b.key key)) [
  | inl e ↦ rw (e, e) (ground arith)
  | inr e ↦ rw (e, e) (used-update_where key start count buckets (rw e at h))
]

used-put :
    (key : Text) (start count : ℕ) (buckets : Buckets)
    → used key start (put key start count buckets) ≡ count
unfolding put
used-put key start count buckets = elim (Bool-cases (any (has_key key) buckets)) [
  | inl e ↦ rw e (used-update_where key start count buckets e)
  | inr e ↦
      rw
        (
          e,
          find-append_new (has_key key) buckets
              (record { key = key; window_start = start; count = count }) e (text_eq_refl key),
        )
        (ground arith)
]

-- A row of one key is not one of another.
other_key :
    (a key other : Text)
    → text_eq key other ≡ false
    → text_eq a key ≡ true
    → text_eq a other ≡ false
other_key a key other differ h = rw (text_eq_sound a key h) differ

find-other :
    (other key : Text) (start count : ℕ) (buckets : Buckets)
    → text_eq key other ≡ false
    → find (has_key other) (update_where (has_key key) (counted start count) buckets)
      ≡ find (has_key other) buckets
find-other other key start count [] differ = refl
find-other other key start count (b ∷ buckets) differ = elim (Bool-cases (text_eq b.key key)) [
  | inl e ↦
      rw (e, other_key b.key key other differ e) (find-other other key start count buckets differ)
  | inr e ↦ rw e (ground (arith, find-other other key start count buckets differ))
]

find-append_other :
    (other : Text) (buckets : Buckets) (b : Bucket)
    → text_eq b.key other ≡ false
    → find (has_key other) (buckets ++ b ∷ []) ≡ find (has_key other) buckets
find-append_other other [] b differ = rw differ refl
find-append_other other (c ∷ buckets) b differ =
    ground (arith, find-append_other other buckets b differ)

used-put_other :
    (other key : Text) (start own count : ℕ) (buckets : Buckets)
    → text_eq key other ≡ false
    → used other own (put key start count buckets) ≡ used other own buckets
unfolding put
used-put_other other key start own count buckets differ =
    elim (Bool-cases (any (has_key key) buckets)) [
      | inl e ↦ rw e (ap (count_in own) (find-other other key start count buckets differ))
      | inr e ↦ rw e (ap (count_in own) (find-append_other other buckets _ differ))
    ]

-- Whether a call is of a key.
abbrev pub is_of : Text → Check → Bool
is_of key call = text_eq call.key key

-- How many calls there are of a key, and how many of these are let through, one after the other.
unfoldable pub attempts : Text → List Check → ℕ
attempts key [] = 0
attempts key (call ∷ calls) = (if is_of key call then 1 else 0) + attempts key calls

unfoldable pub allowed : Text → List Check → Buckets → ℕ
unfolding check
allowed key [] buckets = 0
allowed key (call ∷ calls) buckets =
    (if is_of key call && (check call buckets).1 then 1 else 0)
    + allowed key calls (check call buckets).0

-- A call of the key is for the limit, and falls into the window that starts at `start`.
abbrev pub FitsWindow : Text → ℕ → ℕ → Check → Type 0
FitsWindow key limit start call =
    is_of key call ≡ true → (window_start_of call.window_s call.now ≡ start) × (call.limit ≡ limit)

allowed-used :
    (key : Text) (limit start : ℕ) (calls : List Check) (buckets : Buckets)
    → All (FitsWindow key limit start) calls
    → allowed key calls buckets + min (min 2147483647 limit) (used key start buckets)
      ≡ min (min 2147483647 limit) (used key start buckets + attempts key calls)
unfolding allowed attempts check
allowed-used key limit start [] buckets h = omega arith
allowed-used key limit start (call ∷ calls) buckets h = elim (Bool-cases (text_eq call.key key)) [
  | inr e ↦
      let same : used key start (check call buckets).0 ≡ used key start buckets =
        used-put_other key call.key _ start _ buckets e in
      let rest = allowed-used key limit start calls (check call buckets).0 h.1 in
      rw e (omega (arith, same, rest))
  | inl e ↦
      let (window, same_limit) = h.0 e in
      let name : call.key ≡ key = text_eq_sound call.key key e in
      let one_more : used key start (check call buckets).0 ≡ used key start buckets + 1 =
        rw (name, window) (used-put key start _ buckets) in
      let rest = allowed-used key limit start calls (check call buckets).0 h.1 in
      let verdict : (check call buckets).1
          ≡ leb (used key start buckets + 1) (min 2147483647 limit) =
        rw (name, window, same_limit) refl in
      rw (e, verdict) (ground arith)
]

-- Of the calls of a key in one window, as many as the limit are let through, or all if there are
-- fewer, whatever calls of other keys come in between, if the key has no count in the window before.
pub allowed-attempts :
    (key : Text) (limit start : ℕ) (calls : List Check) (buckets : Buckets)
    → All (FitsWindow key limit start) calls
    → used key start buckets ≡ 0
    → allowed key calls buckets ≡ min (min 2147483647 limit) (attempts key calls)
allowed-attempts key limit start calls buckets h fresh =
    omega (arith, allowed-used key limit start calls buckets h)
