-- ===== src/Prelude/Trim.antt =====
-- Laws of `str::trim`.
use sintade.Prelude.Tests.{Bool-cases}
use sintade.Prelude.Text.{Text, is_whitespace, trim_start, keep_end, trim_end, trim}
use Prim.Native.Nat.{ℕ}
use mathlib.Core.Path.{◌≡◌, refl, ap, ◌∙◌}
use mathlib.Core.Logic.{inl, inr}
use mathlib.Core.Bool.{Bool, true, false, not}
use mathlib.Core.List.{[], ◌∷◌}

-- A text whose first character, if any, stays.
abbrev starts_clean : Text → Bool
starts_clean [] = true
starts_clean (c ∷ _) = not (is_whitespace c)

trim_start-starts_clean : (text : Text) → starts_clean (trim_start text) ≡ true
unfolding trim_start
trim_start-starts_clean [] = refl
trim_start-starts_clean (c ∷ cs) = elim (Bool-cases (is_whitespace c)) [
  | inl e ↦ rw e (trim_start-starts_clean cs)
  | inr e ↦ rw (e, e) refl
]

trim_start-clean : (text : Text) → starts_clean text ≡ true → trim_start text ≡ text
unfolding trim_start
trim_start-clean [] h = refl
trim_start-clean (c ∷ cs) h = elim (Bool-cases (is_whitespace c)) [
  | inl e ↦ absurd (cc (rw e at h))
  | inr e ↦ rw e refl
]

trim_end-starts_clean :
    (text : Text) → starts_clean text ≡ true → starts_clean (trim_end text) ≡ true
unfolding trim_end
trim_end-starts_clean [] h = refl
trim_end-starts_clean (c ∷ cs) h = elim (Bool-cases (is_whitespace c)) [
  | inl e ↦ absurd (cc (rw e at h))
  | inr e ↦ rw (e, e) refl
]

trim_end-keep_end :
    (b : Bool) (c : ℕ) (cs : Text)
    → is_whitespace c ≡ b
    → trim_end cs ≡ cs
    → trim_end (keep_end b c cs) ≡ keep_end b c cs
unfolding trim_end
trim_end-keep_end true c [] e h = refl
trim_end-keep_end true c (d ∷ ds) e h = rw (e, h) refl
trim_end-keep_end false c ds e h = rw (e, h) refl

trim_end-again : (text : Text) → trim_end (trim_end text) ≡ trim_end text
unfolding trim_end
trim_end-again [] = refl
trim_end-again (c ∷ cs) =
    trim_end-keep_end (is_whitespace c) c (trim_end cs) refl (trim_end-again cs)

-- Trimming twice is trimming once.
pub trim-again : (text : Text) → trim (trim text) ≡ trim text
unfolding trim
trim-again text =
    ap trim_end (
      trim_start-clean (trim_end (trim_start text))
        (trim_end-starts_clean (trim_start text) (trim_start-starts_clean text)))
    ∙ trim_end-again (trim_start text)
