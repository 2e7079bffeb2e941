-- ===== src/Media/Waveform/Windows.antt =====
-- Which samples each peak covers.
use sintade.Prelude.{
  ℕ, suc, ◌+◌, ◌*◌, ◌/◌, ◌<◌, ◌≡◌, refl, sym, ap, ◌∙◌, max, true, false, List, [], ◌∷◌, ◌++◌,
  append-nil, append_assoc, map, ltb, ◌==◌, arith, All, length,
}
use sintade.Media.Waveform.{
  sample_rate, PeakFolder, new, from_le_bytes, unsigned_abs, scale, count_in, close_bucket,
  push_sample, push_pairs, push_bytes, resize, all_peaks, peak_count, finish,
}

-- The samples that whole pairs of bytes make.
abbrev pub samples_of : List ℕ → List ℕ
samples_of [] = []
samples_of (_ ∷ []) = []
samples_of (low ∷ high ∷ bytes) = from_le_bytes low high ∷ samples_of bytes

abbrev pub push_samples : PeakFolder → List ℕ → PeakFolder
push_samples f [] = f
push_samples f (x ∷ xs) = push_samples (push_sample f x) xs

-- The loudest of some samples, from a loudness on.
abbrev pub loudest_from : ℕ → List ℕ → ℕ
loudest_from loudest [] = loudest
loudest_from loudest (x ∷ xs) = loudest_from (max loudest (unsigned_abs x)) xs

-- The peak that a window of samples has.
abbrev pub window_peak : List ℕ → ℕ
window_peak samples = scale (loudest_from 0 samples)

-- The windows of the samples, and a last, shorter one.
abbrev pub in_windows : List (List ℕ) → List ℕ → List ℕ
in_windows [] rest = rest
in_windows (w ∷ ws) rest = w ++ in_windows ws rest

abbrev pub last_window : List ℕ → List (List ℕ)
last_window [] = []
last_window (x ∷ xs) = (x ∷ xs) ∷ []

push_sample-open :
    (f : PeakFolder) (x : ℕ)
    → (f.in_bucket + 1 == f.bucket_samples) ≡ false
    → push_sample f x ≡ count_in f x
unfolding push_sample
push_sample-open f x not_full = rw not_full refl

push_sample-full :
    (f : PeakFolder) (x : ℕ)
    → (f.in_bucket + 1 == f.bucket_samples) ≡ true
    → push_sample f x ≡ close_bucket (count_in f x)
unfolding push_sample
push_sample-full f x full = rw full refl

abbrev counted : PeakFolder → ℕ → ℕ → PeakFolder
counted f loudest in_bucket = record f { loudest = loudest; in_bucket = in_bucket }

-- Samples that do not fill the bucket are counted in.
push_samples-open :
    (f : PeakFolder) (xs : List ℕ)
    → f.in_bucket + length xs < f.bucket_samples
    → push_samples f xs ≡ counted f (loudest_from f.loudest xs) (f.in_bucket + length xs)
push_samples-open f [] h = ap (counted f f.loudest) (omega arith)
push_samples-open f (x ∷ xs) h =
    ap (λ g. push_samples g xs) (push_sample-open f x (ground arith))
    ∙ push_samples-open (count_in f x) xs (omega arith)
    ∙ ap (counted f (loudest_from (max f.loudest (unsigned_abs x)) xs)) (omega arith)

abbrev closed : PeakFolder → ℕ → PeakFolder
closed f loudest = record f { peaks = f.peaks ++ scale loudest ∷ []; loudest = 0; in_bucket = 0 }

-- Samples that just fill it close it.
push_samples-full :
    (f : PeakFolder) (x : ℕ) (xs more : List ℕ)
    → f.in_bucket + suc (length xs) ≡ f.bucket_samples
    → push_samples f ((x ∷ xs) ++ more)
      ≡ push_samples (closed f (loudest_from f.loudest (x ∷ xs))) more
unfolding close_bucket
push_samples-full f x [] more h =
    ap (λ g. push_samples g more) (push_sample-full f x (ground arith))
push_samples-full f x (y ∷ ys) more h =
    ap (λ g. push_samples g ((y ∷ ys) ++ more)) (push_sample-open f x (ground arith))
    ∙ push_samples-full (count_in f x) y ys more (omega arith)

-- A whole window goes from an empty bucket to an empty bucket.
push_window :
    (f : PeakFolder) (w more : List ℕ)
    → f.in_bucket ≡ 0
    → f.loudest ≡ 0
    → 0 < f.bucket_samples
    → length w ≡ f.bucket_samples
    → push_samples f (w ++ more) ≡ push_samples (closed f (loudest_from 0 w)) more
push_window f [] more e z pos h = absurd (omega arith)
push_window f (x ∷ xs) more e z pos h =
    push_samples-full f x xs more (omega arith)
    ∙ ap (λ l. push_samples (closed f (loudest_from l (x ∷ xs))) more) z

-- The peaks are those of the windows, and of what is left behind them.
all_peaks-push_samples :
    (f : PeakFolder) (ws : List (List ℕ)) (rest : List ℕ)
    → f.in_bucket ≡ 0
    → f.loudest ≡ 0
    → 0 < f.bucket_samples
    → All (λ w. length w ≡ f.bucket_samples) ws
    → length rest < f.bucket_samples
    → all_peaks (push_samples f (in_windows ws rest))
      ≡ f.peaks ++ map window_peak (ws ++ last_window rest)
unfolding all_peaks close_bucket
all_peaks-push_samples f [] [] e z pos a short = rw e (sym (append-nil f.peaks))
all_peaks-push_samples f [] (x ∷ xs) e z pos a short =
    ap all_peaks (push_samples-open f (x ∷ xs) (omega arith))
    ∙ (let some_in : ltb 0 (0 + suc (length xs)) ≡ true = ground arith in rw (e, z, some_in) refl)
all_peaks-push_samples f (w ∷ ws) rest e z pos a short =
    ap all_peaks (push_window f w (in_windows ws rest) e z pos a.0)
    ∙ all_peaks-push_samples (closed f (loudest_from 0 w)) ws rest refl refl pos a.1 short
    ∙ append_assoc f.peaks (window_peak w ∷ []) (map window_peak (ws ++ last_window rest))

all_peaks-push_pairs :
    (f : PeakFolder) (bytes : List ℕ)
    → all_peaks (push_pairs f bytes) ≡ all_peaks (push_samples f (samples_of bytes))
unfolding push_pairs all_peaks close_bucket
all_peaks-push_pairs f [] = refl
all_peaks-push_pairs f (low ∷ []) = refl
all_peaks-push_pairs f (low ∷ high ∷ bytes) =
    all_peaks-push_pairs (push_sample f (from_le_bytes low high)) bytes

pushed_new :
    (bucket : ℕ) (bytes : List ℕ)
    → all_peaks (push_bytes (new bucket) bytes)
      ≡ all_peaks (push_samples (new bucket) (samples_of bytes))
unfolding push_bytes new
pushed_new bucket bytes = all_peaks-push_pairs (new bucket) bytes

-- How many samples a bucket has.
abbrev pub window_size : ℕ → ℕ
window_size bucket = max (sample_rate * bucket / 1000) 1

-- Cut the samples into windows of the bucket's size, with fewer samples left at the end: each peak
-- of the waveform is the loudest sample of its window, scaled to 0 .. 255, a short last window
-- counts, and the list is cut off or padded with silence to the number of peaks that the
-- recording's length asks for.
pub finish-windows :
    (bucket duration : ℕ) (bytes : List ℕ) (ws : List (List ℕ)) (rest : List ℕ)
    → samples_of bytes ≡ in_windows ws rest
    → All (λ w. length w ≡ window_size bucket) ws
    → length rest < window_size bucket
    → finish (push_bytes (new bucket) bytes) duration bucket
      ≡ resize (peak_count duration bucket) (map window_peak (ws ++ last_window rest))
unfolding finish new
finish-windows bucket duration bytes ws rest cut sizes short =
    ap (resize (peak_count duration bucket)) (
      pushed_new bucket bytes
      ∙ ap (λ xs. all_peaks (push_samples (new bucket) xs)) cut
      ∙ all_peaks-push_samples (new bucket) ws rest refl refl (omega arith) sizes short)
