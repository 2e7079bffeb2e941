-- ===== src/Media/Waveform/Lengths.antt =====
-- How many peaks a waveform has, and how long each is.
use sintade.Prelude.{
  ℕ, zero, suc, ◌*◌, ◌≤◌, ◌<◌, ◌≡◌, refl, ap, subst, max, List, [], ◌∷◌, arith, length,
}
use native.Mathlib.Nat.{mul_comm}
use sintade.Prelude.Rounding.{div_ceil, div_ceil_iff}
use sintade.Media.Waveform.{max_peaks, bucket_ms, peak_count, PeakFolder, resize, finish}

length-resize : (n : ℕ) (xs : List ℕ) → length (resize n xs) ≡ n
length-resize zero xs = refl
length-resize (suc n) [] = ap suc (length-resize n [])
length-resize (suc n) (x ∷ xs) = ap suc (length-resize n xs)

bucket_pos : (duration : ℕ) → 0 < bucket_ms duration
unfolding bucket_ms
bucket_pos duration = omega arith

bucket_wide : (duration : ℕ) → div_ceil duration max_peaks ≤ bucket_ms duration
unfolding bucket_ms
bucket_wide duration = omega arith

-- For a recording of any length, with the bucket chosen for that length, and whatever was pushed: the
-- waveform has at most 20000 peaks, its buckets cover the recording, and it has no more peaks than
-- any number of buckets that covers the recording.
pub length-finish :
    (f : PeakFolder) (duration n : ℕ)
    → duration ≤ bucket_ms duration * n
    → let peaks = length (finish f duration (bucket_ms duration)) in
      (peaks ≤ max_peaks) × (duration ≤ bucket_ms duration * peaks) × (peaks ≤ n)
unfolding finish peak_count
length-finish f duration n enough =
    let bucket = bucket_ms duration in
    let pos = bucket_pos duration in
    let at_least_one : max bucket 1 ≡ bucket = omega arith in
    rw (length-resize (div_ceil duration (max bucket 1)), at_least_one)
      (
        (div_ceil_iff duration bucket max_peaks pos).1 (
            subst (λ m. duration ≤ m) (mul_comm max_peaks bucket)
              ((div_ceil_iff duration max_peaks bucket (omega arith)).0 (bucket_wide duration))),
        (div_ceil_iff duration bucket (div_ceil duration bucket) pos).0 (omega arith),
        (div_ceil_iff duration bucket n pos).1 enough,
      )
