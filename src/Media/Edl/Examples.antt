-- ===== src/Media/Edl/Examples.antt =====
-- Tests of the edit decision list, on the inputs of the source's own tests, and the theorems at
-- concrete inputs.
use sintade.Prelude.{ℕ, ◌≡◌, ◌↔◌, refl, List, [], ◌∷◌, some, ok, err}
use sintade.Prelude.Sort.{sort_by}
use sintade.Media.Edl.{
  KeptRange, Edl, check_ranges, key_before, join_sorted, new, cuts, empty, overlap, too_short,
  past_end,
}
use sintade.Media.Edl.Valid.{IsEdl, new-IsEdl}
use sintade.Media.Edl.Coverage.{covers, covers-new}
use sintade.Media.Edl.Accepts.{Acceptable, new-Acceptable_iff}
use sintade.Media.Edl.Stored.{PairsJson}

abbrev r : ℕ → ℕ → KeptRange
r start end = record { start_ms = start; end_ms = end }

abbrev touching : List KeptRange
touching = r 5000 8000 ∷ r 0 5000 ∷ r 9000 10000 ∷ []

abbrev joined : Edl
joined = record { ranges = r 0 8000 ∷ r 9000 10000 ∷ []; source_duration_ms = 10000 }

new-touching : new touching 10000 ≡ ok joined
unfolding new check_ranges join_sorted sort_by key_before
new-touching = refl

cuts-joined : cuts joined ≡ r 8000 9000 ∷ []
unfolding cuts
cuts-joined = refl

new-overlap : new (r 6000 7000 ∷ r 1000 9000 ∷ []) 10000 ≡ err (overlap 0 1)
unfolding new check_ranges join_sorted sort_by key_before
new-overlap = refl

new-too_short : new (r 0 99 ∷ []) 10000 ≡ err (too_short 0)
unfolding new check_ranges
new-too_short = refl

new-past_end : new (r 9000 10001 ∷ []) 10000 ≡ err (past_end 0 10000)
unfolding new check_ranges
new-past_end = refl

new-empty : new (r 0 1000 ∷ r 6000 5000 ∷ []) 10000 ≡ err (empty 1)
unfolding new check_ranges
new-empty = refl

new-IsEdl_example : IsEdl joined
new-IsEdl_example = new-IsEdl touching 10000 joined new-touching

covers-new_example : covers 4999 joined.ranges ≡ covers 4999 touching
covers-new_example = covers-new touching 10000 joined 4999 new-touching

-- A JSON library whose values are the lists themselves.
abbrev plain_json : PairsJson
plain_json = record {
  Value = List KeptRange;
  array_of_pairs = λ pairs. pairs;
  from_value = λ value. some value;
}

new-Acceptable_iff_example :
    ((edl : Edl) × (new touching 10000 ≡ ok edl)) ↔ Acceptable touching 10000
new-Acceptable_iff_example = new-Acceptable_iff touching 10000
