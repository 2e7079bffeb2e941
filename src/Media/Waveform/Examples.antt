-- ===== src/Media/Waveform/Examples.antt =====
-- Waveforms of a few samples, in buckets of one millisecond: 8 samples each.
use sintade.Prelude.{ℕ, ◌*◌, ◌≤◌, ◌≡◌, refl, List, [], ◌∷◌, ◌++◌, map, replicate, arith}
use sintade.Media.Waveform.{
  bucket_ms, peak_count, new, push_bytes, finish, resize, all_peaks, push_pairs, push_sample,
}
use sintade.Media.Waveform.Windows.{last_window, window_peak, finish-windows}

-- Eight samples of which one is half of full scale, then two at full scale.
abbrev pcm : List ℕ
pcm = 0 ∷ 64 ∷ replicate 14 0 ++ 0 ∷ 128 ∷ 0 ∷ 128 ∷ []

abbrev quiet : List ℕ
quiet = 16384 ∷ replicate 7 0

abbrev loud : List ℕ
loud = 32768 ∷ 32768 ∷ []

two_peaks : finish (push_bytes (new 1) pcm) 2 1 ≡ 127 ∷ 255 ∷ []
unfolding finish peak_count all_peaks push_bytes new push_pairs push_sample
two_peaks = refl

padded_peaks : finish (push_bytes (new 1) pcm) 3 1 ≡ 127 ∷ 255 ∷ 0 ∷ []
unfolding finish peak_count all_peaks push_bytes new push_pairs push_sample
padded_peaks = refl

one_hour : bucket_ms 3600000 ≡ 180
unfolding bucket_ms
one_hour = refl

ten_seconds : peak_count 10000 (bucket_ms 10000) ≡ 200
unfolding peak_count bucket_ms
ten_seconds = refl

abbrev pieces : List (List ℕ)
pieces = (0 ∷ []) ∷ [] ∷ (64 ∷ 7 ∷ 9 ∷ []) ∷ (1 ∷ []) ∷ []

finish-windows_example :
    finish (push_bytes (new 1) pcm) 3 1
    ≡ resize (peak_count 3 1) (map window_peak ((quiet ∷ []) ++ last_window loud))
finish-windows_example = finish-windows 1 3 pcm (quiet ∷ []) loud refl (refl, tt) (omega arith)

abbrev an_hour : ℕ
an_hour = 3600000

hour_covered : an_hour ≤ bucket_ms an_hour * 20000
unfolding bucket_ms
hour_covered = omega arith
