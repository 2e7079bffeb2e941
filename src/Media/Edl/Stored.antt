-- ===== src/Media/Edl/Stored.antt =====
-- The stored form of an edit, `[[start, end], ...]`, and reading it back
-- (`from_json`, `to_json`). The JSON library is a parameter.
use sintade.Prelude.{
  ℕ, ◌+◌, ◌≡◌, refl, ap, ◌∙◌, List, [], ◌∷◌, Option, some, arith, All, All-enumerate, enumerate,
  Result, ok, map_err, ok_or, ◌>>=◌,
}
use sintade.Prelude.Sort.{sort_by}
use sintade.Media.Edl.{KeptRange, Edl, EdlError, key_before, join_ranges, join_sorted, new}
use sintade.Media.Edl.Accepts.{check_ranges_complete, new_of_steps}
use sintade.Media.Edl.Valid.{IsRange, Gapped, Apart, IsEdl}

pub data EdlJsonError : Type 0 where
  malformed : EdlJsonError
  invalid : EdlError → EdlJsonError

-- What the code uses of `serde_json`: a value that stands for a list of pairs of u32 numbers, and
-- reading such a list back.
pub record PairsJson : Type 1 where
  pub Value : Type 0
  pub array_of_pairs : List KeptRange → Value
  pub from_value : Value → Option (List KeptRange)

abbrev pub ReadsBack : PairsJson → Type 0
ReadsBack json = (pairs : List KeptRange) → json.from_value (json.array_of_pairs pairs) ≡ some pairs

module _ (json : PairsJson) where
  unfoldable pub from_json : json.Value → ℕ → Result EdlJsonError Edl
  from_json value duration = do
    pairs ← ok_or (json.from_value value) malformed
    map_err invalid (new pairs duration)

  unfoldable pub to_json : Edl → json.Value
  to_json edl = json.array_of_pairs edl.ranges

-- Ranges that are apart are already in order.
sort_by-Apart :
    (i duration : ℕ) (rs : List KeptRange)
    → All (IsRange duration) rs
    → Apart rs
    → sort_by key_before (enumerate i rs) ≡ enumerate i rs
unfolding sort_by key_before
sort_by-Apart i duration [] v a = refl
sort_by-Apart i duration (r ∷ []) v a = refl
sort_by-Apart i duration (r ∷ s ∷ rs) v a =
    rw (sort_by-Apart (i + 1) duration (s ∷ rs) v.1 a.1) (ground arith)

-- Nothing is joined where there is a gap in front of each range.
join_ranges-Gapped :
    (last : KeptRange) (before i : ℕ) (rs : List KeptRange)
    → Gapped last.end_ms rs
    → join_ranges last before (enumerate i rs) ≡ ok (last ∷ rs)
unfolding join_ranges
join_ranges-Gapped last before i [] g = refl
join_ranges-Gapped last before i (r ∷ rs) g = ground (arith, join_ranges-Gapped r i (i + 1) rs g.1)

new-ranges :
    (rs : List KeptRange) (duration : ℕ)
    → IsEdl (record { ranges = rs; source_duration_ms = duration })
    → new rs duration ≡ ok (record { ranges = rs; source_duration_ms = duration })
unfolding join_sorted
new-ranges [] duration v = absurd v.apart
new-ranges (r ∷ rs) duration v =
    new_of_steps (r ∷ rs) (r ∷ rs) duration v.known (omega arith) v.few
      (check_ranges_complete duration (enumerate 0 (r ∷ rs))
        (All-enumerate (IsRange duration) 0 (r ∷ rs) v.each))
      (ap join_sorted (sort_by-Apart 0 duration (r ∷ rs) v.each v.apart)
        ∙ join_ranges-Gapped r 0 1 rs v.apart)

-- Where the JSON library reads back what it wrote, a stored edit is read back as it was.
pub from_json-to_json :
    (json : PairsJson) (edl : Edl)
    → ReadsBack json
    → IsEdl edl
    → from_json json (to_json json edl) edl.source_duration_ms ≡ ok edl
unfolding from_json to_json
from_json-to_json json edl reads v =
    rw (reads edl.ranges, new-ranges edl.ranges edl.source_duration_ms v)
