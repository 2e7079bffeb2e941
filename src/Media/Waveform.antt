-- ===== src/Media/Waveform.antt =====
-- The peaks of the editor's timeline (crates/media/src/domain/waveform.rs). A byte is a number; a
-- 16-bit sample is the number that its two bytes make, so that 32768 and more stand for the
-- negative ones.
pub mod Folding
pub mod Windows
pub mod Lengths
mod Examples
use sintade.Prelude.Rounding.{div_ceil}
use sintade.Prelude.{
  ℕ, zero, suc, ◌+◌, ◌-◌, ◌*◌, ◌/◌, ◌%◌, max, min, Bool, true, false, List, [], ◌∷◌, ◌++◌, Option,
  none, some, ltb, ◌==◌, if◌then◌else◌,
}

abbrev pub max_peaks : ℕ
max_peaks = 20000

abbrev pub min_bucket_ms : ℕ
min_bucket_ms = 50

abbrev pub sample_rate : ℕ
sample_rate = 8000

unfoldable pub bucket_ms : ℕ → ℕ
bucket_ms duration = max (div_ceil duration max_peaks) min_bucket_ms

unfoldable pub peak_count : ℕ → ℕ → ℕ
peak_count duration bucket = div_ceil duration (max bucket 1)

pub record PeakFolder : Type 0 where
  pub bucket_samples : ℕ
  pub in_bucket : ℕ
  pub loudest : ℕ
  pub carry : Option ℕ
  pub peaks : List ℕ

unfoldable pub new : ℕ → PeakFolder
new bucket = record {
  bucket_samples = max (sample_rate * bucket / 1000) 1;
  in_bucket = 0;
  loudest = 0;
  carry = none;
  peaks = [];
}

-- `i16::from_le_bytes`.
abbrev pub from_le_bytes : ℕ → ℕ → ℕ
from_le_bytes low high = low + 256 * high

-- `unsigned_abs` of a 16-bit sample.
abbrev pub unsigned_abs : ℕ → ℕ
unsigned_abs sample = if ltb sample 32768 then sample else 65536 - sample

-- `u8::try_from(loudest * 255 / 32_768).unwrap_or(u8::MAX)`.
abbrev pub scale : ℕ → ℕ
scale loudest = min (loudest * 255 / 32768) 255

unfoldable pub close_bucket : PeakFolder → PeakFolder
close_bucket f = record f { peaks = f.peaks ++ scale f.loudest ∷ []; in_bucket = 0; loudest = 0 }

-- The sample counted in, the bucket still open.
abbrev pub count_in : PeakFolder → ℕ → PeakFolder
count_in f sample = record f {
  loudest = max f.loudest (unsigned_abs sample);
  in_bucket = f.in_bucket + 1;
}

unfoldable pub push_sample : PeakFolder → ℕ → PeakFolder
push_sample f sample =
    let counted = count_in f sample in
    if counted.in_bucket == counted.bucket_samples then close_bucket counted else counted

-- The pairs of a piece, and the byte that is left over.
unfoldable pub push_pairs : PeakFolder → List ℕ → PeakFolder
push_pairs f [] = record f { carry = none }
push_pairs f (low ∷ []) = record f { carry = some low }
push_pairs f (low ∷ high ∷ bytes) = push_pairs (push_sample f (from_le_bytes low high)) bytes

abbrev pub after_carry : Option ℕ → PeakFolder → List ℕ → PeakFolder
after_carry none f bytes = push_pairs f bytes
after_carry (some low) f [] = record f { carry = some low }
after_carry (some low) f (high ∷ bytes) = push_pairs (push_sample f (from_le_bytes low high)) bytes

unfoldable pub push_bytes : PeakFolder → List ℕ → PeakFolder
push_bytes f bytes = after_carry f.carry (record f { carry = none }) bytes

-- `Vec::resize`.
abbrev pub resize : ℕ → List ℕ → List ℕ
resize zero xs = []
resize (suc n) [] = 0 ∷ resize n []
resize (suc n) (x ∷ xs) = x ∷ resize n xs

-- A short last bucket is kept.
unfoldable pub all_peaks : PeakFolder → List ℕ
unfolding close_bucket
all_peaks f = if ltb 0 f.in_bucket then (close_bucket f).peaks else f.peaks

unfoldable pub finish : PeakFolder → ℕ → ℕ → List ℕ
finish f duration bucket = resize (peak_count duration bucket) (all_peaks f)
