-- ===== src/Media/Sprite/Cues.antt =====
-- The times of the cues.
use sintade.Prelude.{
  ℕ, zero, suc, ◌+◌, ◌*◌, ◌≤◌, ◌<◌, ◌≡◌, refl, sym, ap, ◌∙◌, subst, max, min, List, [], ◌∷◌, length,
  arith, leb, leb→le, Bool-cases, inl, inr,
}
use native.Mathlib.Nat.{mul_comm, suc-mul, zero-mul, mul-pos}
use sintade.Prelude.Rounding.{div_ceil, div_ceil_iff}
use sintade.Media.Sprite.{Cue, tile_count, cue_at, cues_from, cues}

-- Cues that follow each other with no gap and no overlap, from a time to a time.
abbrev pub Contiguous : ℕ → ℕ → List Cue → Type 0
Contiguous from to [] = from ≡ to
Contiguous from to (cue ∷ rest) =
    (cue.start ≡ from) × (cue.start < cue.end) × Contiguous cue.end to rest

-- The rounds left take the cues from the index's time to the end.
cues_from-Contiguous :
    (duration step tile_height rounds index : ℕ)
    → 0 < step
    → ((k : ℕ) → k < index + suc rounds → k * step < max duration 1)
    → max duration 1 ≤ (index + suc rounds) * step
    → Contiguous
        (index * step)
        (max duration 1)
        (cues_from duration step tile_height (suc rounds) index)
unfolding cues_from cue_at
cues_from-Contiguous duration step tile_height zero index pos below above =
    let here : index * step < max duration 1 = below index (omega arith) in
    let there : max duration 1 ≤ index * step + step =
      subst (λ m. max duration 1 ≤ m) (ap (λ k. k * step) (omega arith) ∙ suc-mul index step)
        above in
    (refl, omega arith, omega arith)
cues_from-Contiguous duration step tile_height (suc rounds) index pos below above =
    let next : index * step + step < max duration 1 =
      subst (λ m. m < max duration 1) (suc-mul index step) (below (suc index) (omega arith)) in
    let end : min (index * step + step) (max duration (index * step + 1)) ≡ (index + 1) * step =
      omega arith in
    (
      refl,
      omega arith,
      subst
          (λ from.
            Contiguous from (max duration 1)
              (cues_from duration step tile_height (suc rounds) (index + 1)))
          (sym end)
          (cues_from-Contiguous duration step tile_height rounds (index + 1) pos
            (λ k h. below k (omega arith))
            (subst (λ n. max duration 1 ≤ n * step) (omega arith) above)),
    )

length-cues_from :
    (duration step tile_height rounds index : ℕ)
    → length (cues_from duration step tile_height rounds index) ≡ rounds
unfolding cues_from
length-cues_from duration step tile_height zero index = refl
length-cues_from duration step tile_height (suc rounds) index =
    ap suc (length-cues_from duration step tile_height rounds (index + 1))

all_cues-Contiguous :
    (duration step tile_height n : ℕ)
    → 0 < n
    → 0 < step
    → ((k : ℕ) → k < n → k * step < max duration 1)
    → max duration 1 ≤ n * step
    → Contiguous 0 (max duration 1) (cues_from duration step tile_height n 0)
all_cues-Contiguous duration step tile_height zero some_cue pos below above = absurd (omega arith)
all_cues-Contiguous duration step tile_height (suc n) some_cue pos below above =
    subst (λ from. Contiguous from (max duration 1) (cues_from duration step tile_height (suc n) 0))
      (zero-mul step)
      (cues_from-Contiguous duration step tile_height n 0 pos (λ k h. below k (omega arith))
        (subst (λ m. max duration 1 ≤ m * step) (omega arith) above))

starts_before_end :
    (duration step k : ℕ)
    → 0 < step
    → k < max (div_ceil duration step) 1
    → k * step < max duration 1
starts_before_end duration step zero pos h =
    subst (λ m. m < max duration 1) (sym (zero-mul step)) (omega arith)
starts_before_end duration step (suc k) pos h =
    subst (λ m. m < max duration 1) (mul_comm step (suc k))
      (elim (Bool-cases (leb duration (step * suc k))) [
        | inl covered ↦
            let enough : div_ceil duration step ≤ suc k =
              (div_ceil_iff duration step (suc k) pos).1 (leb→le duration (step * suc k) covered) in
            absurd (omega arith)
        | inr beyond ↦ let later : step * suc k < duration = ground arith in omega arith
      ])

reaches_end :
    (duration step : ℕ) → 0 < step → max duration 1 ≤ max (div_ceil duration step) 1 * step
reaches_end duration step pos =
    let n = max (div_ceil duration step) 1 in
    let covered : duration ≤ step * n = (div_ceil_iff duration step n pos).0 (omega arith) in
    let some_time : 0 < n * step = mul-pos (omega arith) pos in
    let same = mul_comm n step in omega arith

-- The cues of the sprite cover the recording from 0 to its end, or to 1 ms for an empty one, without
-- a gap or an overlap, one for each thumbnail.
pub cues-Contiguous :
    (duration interval tile_height : ℕ)
    → 0 < interval
    → Contiguous 0 (max duration 1) (cues duration interval tile_height)
      × (length (cues duration interval tile_height) ≡ tile_count duration interval)
unfolding cues tile_count
cues-Contiguous duration interval tile_height pos = (
  all_cues-Contiguous duration (interval * 1000) tile_height (tile_count duration interval)
      (omega arith) (omega arith)
      (λ k h. starts_before_end duration (interval * 1000) k (omega arith) h)
      (reaches_end duration (interval * 1000) (omega arith)),
  length-cues_from duration (interval * 1000) tile_height (tile_count duration interval) 0,
)
