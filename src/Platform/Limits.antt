-- ===== src/Platform/Limits.antt =====
-- The rate limiter (crates/platform/src/rate_limit.rs) over the `rate_limit_buckets` table, with one
-- row for a key. Times are seconds from the epoch on. A count past the column's range would be an
-- error of the statement.
pub mod Windows
mod Examples
use sintade.Prelude.{
  ℕ, suc, ◌+◌, ◌*◌, ◌/◌, Bool, true, false, List, [], ◌∷◌, ◌++◌, Option, none, some, leb, ◌==◌,
  if◌then◌else◌, any, find, update_where, min, max,
}
use sintade.Prelude.Text.{Text, text_eq}

pub record Bucket : Type 0 where
  pub key : Text
  pub window_start : ℕ
  pub count : ℕ

abbrev pub Buckets : Type 0
Buckets = List Bucket

-- The arguments of a call.
pub record Check : Type 0 where
  pub key : Text
  pub window_s : ℕ
  pub limit : ℕ
  pub now : ℕ

abbrev pub has_key : Text → Bucket → Bool
has_key key b = text_eq b.key key

-- `unwrap_or(i64::MAX).max(1)` of the window's seconds.
abbrev pub window_secs : ℕ → ℕ
window_secs window_s = max 1 (min 9223372036854775807 window_s)

unfoldable pub window_start_of : ℕ → ℕ → ℕ
window_start_of window_s now = now / window_secs window_s * window_secs window_s

-- The count of a key in the window that starts at `start`.
abbrev pub count_in : ℕ → Option Bucket → ℕ
count_in start none = 0
count_in start (some b) = if b.window_start == start then b.count else 0

abbrev pub counted : ℕ → ℕ → Bucket → Bucket
counted start count b = record b { window_start = start; count = count }

-- `INSERT ... ON CONFLICT (key) DO UPDATE`.
unfoldable pub put : Text → ℕ → ℕ → Buckets → Buckets
put key start count buckets =
    if any (has_key key) buckets
    then update_where (has_key key) (counted start count) buckets
    else buckets ++ record { key = key; window_start = start; count = count } ∷ []

unfoldable pub check : Check → Buckets → Buckets × Bool
unfolding put window_start_of
check call buckets =
    let start = window_start_of call.window_s call.now in
    let count = count_in start (find (has_key call.key) buckets) + 1 in
    (put call.key start count buckets, leb count (min 2147483647 call.limit))
