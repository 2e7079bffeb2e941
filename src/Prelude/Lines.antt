-- ===== src/Prelude/Lines.antt =====
-- Lines, splits and prefixes: more of what the code uses of `str`.
use sintade.Prelude.Tests.{◌==◌, if◌then◌else◌}
use sintade.Prelude.Text.{Text, starts_with, text_eq}
use Prim.Native.Nat.{ℕ}
use mathlib.Core.Bool.{Bool, true, ◌&&◌}
use mathlib.Core.Option.{Option, none, some}
use mathlib.Core.List.{List, [], ◌∷◌, ◌++◌}

-- A character in front of the first line.
abbrev pub on_first : ℕ → List Text → List Text
on_first c [] = (c ∷ []) ∷ []
on_first c (line ∷ lines) = (c ∷ line) ∷ lines

-- `lines()`: a line ends at a line feed, with the carriage return in front of it if there is one.
unfoldable pub lines : Text → List Text
lines [] = []
lines (c ∷ cs) =
    let later = lines cs in
    if c == 10
    then [] ∷ later
    else if c == 13 && starts_with (10 ∷ []) cs
    then later
    else on_first c later

-- Each line with a line feed behind it.
abbrev pub unlines : List Text → Text
unlines [] = []
unlines (line ∷ rest) = line ++ 10 ∷ unlines rest

-- `split(c)`: there is always a first part.
unfoldable pub split : ℕ → Text → List Text
split c [] = [] ∷ []
split c (d ∷ ds) = let later = split c ds in if d == c then [] ∷ later else on_first d later

abbrev pub strip_prefix : Text → Text → Option Text
strip_prefix [] text = some text
strip_prefix (p ∷ ps) [] = none
strip_prefix (p ∷ ps) (c ∷ cs) = if p == c then strip_prefix ps cs else none

-- `split_once(pattern)`: the parts around its first occurrence.
abbrev pub with_first : ℕ → Option (Text × Text) → Option (Text × Text)
with_first c none = none
with_first c (some (front, back)) = some (c ∷ front, back)

abbrev pub or_at : Text → Option Text → Option (Text × Text) → Option (Text × Text)
or_at front none later = later
or_at front (some back) later = some (front, back)

unfoldable pub split_once : Text → Text → Option (Text × Text)
split_once pattern [] = or_at [] (strip_prefix pattern []) none
split_once pattern (c ∷ cs) =
    let later = split_once pattern cs in
    or_at [] (strip_prefix pattern (c ∷ cs)) (with_first c later)

abbrev pub ends_with : Text → Text → Bool
ends_with suffix [] = text_eq suffix []
ends_with suffix (c ∷ cs) =
    let later = ends_with suffix cs in if text_eq suffix (c ∷ cs) then true else later

-- `strip_suffix(suffix)`.
abbrev pub strip_suffix : Text → Text → Option Text
strip_suffix suffix [] = if text_eq suffix [] then some [] else none
strip_suffix suffix (c ∷ cs) =
    let later = strip_suffix suffix cs in
    if text_eq suffix (c ∷ cs) then some [] else kept_first c later
  where
    kept_first : ℕ → Option Text → Option Text
    kept_first d none = none
    kept_first d (some rest) = some (d ∷ rest)

-- `trim_matches(p)`: without the characters that `p` picks, at both ends.
abbrev pub skip_while : (ℕ → Bool) → Text → Text
skip_while p [] = []
skip_while p (c ∷ cs) = let later = skip_while p cs in if p c then later else c ∷ cs

abbrev dropped_end : (ℕ → Bool) → ℕ → Text → Text
dropped_end p c [] = if p c then [] else c ∷ []
dropped_end p c (d ∷ ds) = c ∷ d ∷ ds

abbrev pub trim_end_while : (ℕ → Bool) → Text → Text
trim_end_while p [] = []
trim_end_while p (c ∷ cs) = dropped_end p c (trim_end_while p cs)

unfoldable pub trim_matches : (ℕ → Bool) → Text → Text
trim_matches p text = trim_end_while p (skip_while p text)

-- `replacen(from, to, 1)`.
abbrev pub joined_by : Text → Text → Option (Text × Text) → Text
joined_by text to none = text
joined_by text to (some (front, back)) = front ++ to ++ back

unfoldable pub replace_first : Text → Text → Text → Text
unfolding split_once
replace_first from to text = joined_by text to (split_once from text)
