-- ===== src/Media/Edl.antt =====
-- The edit decision list (crates/media/src/domain/edl.rs). Times are u32 milliseconds; every
-- subtraction is guarded by the checks of `new`, so none wraps.
pub mod Valid
pub mod Coverage
pub mod Accepts
pub mod Stored
mod Examples
use sintade.Prelude.{
  ℕ, suc, ◌+◌, ◌-◌, Bool, true, false, ◌&&◌, ◌||◌, List, [], ◌∷◌, Option, none, some, ltb, leb,
  ◌==◌, if◌then◌else◌, length, enumerate, map, min, max, Result, ok, err, ◌>>=◌, ◌>>◌, fail_if,
  map_ok,
}
use sintade.Prelude.Sort.{sort_by}

abbrev pub min_range_ms : ℕ
min_range_ms = 100

abbrev pub max_ranges : ℕ
max_ranges = 100

pub data EdlError : Type 0 where
  no_duration no_ranges too_many : EdlError
  empty : ℕ → EdlError
  too_short : ℕ → EdlError
  past_end : ℕ → ℕ → EdlError
  overlap : ℕ → ℕ → EdlError

pub record KeptRange : Type 0 where
  pub start_ms : ℕ
  pub end_ms : ℕ

abbrev pub len_ms : KeptRange → ℕ
len_ms range = range.end_ms - range.start_ms

pub record Edl : Type 0 where
  pub ranges : List KeptRange
  pub source_duration_ms : ℕ

-- The checks that each range passes on its own, in the order of the input.
unfoldable pub check_ranges : ℕ → List (ℕ × KeptRange) → Result EdlError (Unit {0})
check_ranges duration [] = ok tt
check_ranges duration ((index, r) ∷ rest) =
    let later = check_ranges duration rest in
    if leb r.end_ms r.start_ms
    then err (empty index)
    else if ltb (r.end_ms - r.start_ms) min_range_ms
    then err (too_short index)
    else if ltb duration r.end_ms
    then err (past_end index duration)
    else later

-- The order of the sort keys `(ranges[index][0], ranges[index][1])`.
unfoldable pub key_before : ℕ × KeptRange → ℕ × KeptRange → Bool
key_before (_, a) (_, b) =
    ltb a.start_ms b.start_ms || (a.start_ms == b.start_ms && ltb a.end_ms b.end_ms)

-- The joining loop, from the last kept range and the index that it came from: what `kept` holds
-- from `last` on when the loop ends.
unfoldable pub join_ranges : KeptRange → ℕ → List (ℕ × KeptRange) → Result EdlError (List KeptRange)
join_ranges last before [] = ok (last ∷ [])
join_ranges last before ((index, r) ∷ rest) =
    let touches = r.start_ms == last.end_ms in
    let joined =
      join_ranges (if touches then record last { end_ms = r.end_ms } else r) index rest in
    if ltb r.start_ms last.end_ms
    then err (overlap (min before index) (max before index))
    else if touches
    then joined
    else map_ok (λ kept. last ∷ kept) joined

unfoldable pub join_sorted : List (ℕ × KeptRange) → Result EdlError (List KeptRange)
unfolding join_ranges
join_sorted [] = ok []
join_sorted ((index, r) ∷ rest) = join_ranges r index rest

abbrev is_empty : List KeptRange → Bool
is_empty [] = true
is_empty (_ ∷ _) = false

unfoldable pub new : List KeptRange → ℕ → Result EdlError Edl
new ranges duration = do
  fail_if (duration == 0) no_duration
  fail_if (is_empty ranges) no_ranges
  fail_if (ltb max_ranges (length ranges)) too_many
  check_ranges duration (enumerate 0 ranges)
  kept ← join_sorted (sort_by key_before (enumerate 0 ranges))
  ok (record { ranges = kept; source_duration_ms = duration })

abbrev pub sum_len : List KeptRange → ℕ
sum_len [] = 0
sum_len (range ∷ rest) = len_ms range + sum_len rest

unfoldable pub kept_ms : Edl → ℕ
kept_ms edl = sum_len edl.ranges

-- The loop of `cuts`, with the cursor behind the last kept range.
unfoldable pub cuts_from : ℕ → ℕ → List KeptRange → List KeptRange
cuts_from duration cursor [] =
    if ltb cursor duration then record { start_ms = cursor; end_ms = duration } ∷ [] else []
cuts_from duration cursor (range ∷ rest) =
    let later = cuts_from duration range.end_ms rest in
    if ltb cursor range.start_ms
    then record { start_ms = cursor; end_ms = range.start_ms } ∷ later
    else later

unfoldable pub cuts : Edl → List KeptRange
unfolding cuts_from
cuts edl = cuts_from edl.source_duration_ms 0 edl.ranges

abbrev only_range : ℕ → List KeptRange → Bool
only_range duration (only ∷ []) = only.start_ms == 0 && only.end_ms == duration
only_range duration _ = false

unfoldable pub is_identity : Edl → Bool
is_identity edl = only_range edl.source_duration_ms edl.ranges
