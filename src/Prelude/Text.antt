-- ===== src/Prelude/Text.antt =====
-- Text as lists of code points: what the code uses of `str`, `char` and `format!`.
use sintade.Prelude.Tests.{ltb, leb, ◌==◌, if◌then◌else◌, Bool-cases}
use sintade.Prelude.Lists.{length, replicate, length-append, length-replicate}
use Prim.Native.Nat.{ℕ, zero, suc, ◌+◌, ◌-◌, ◌*◌, ◌/◌, ◌%◌, ◌≤◌, ◌<◌}
use Prim.Native.Char.{code}
use Prim.Native.String.{String}
use mathlib.Core.Path.{◌≡◌, refl, sym, ap, ap₂, ◌∙◌}
use mathlib.Core.Logic.{inl, inr}
use mathlib.Core.Bool.{Bool, true, false, ◌&&◌, ◌||◌}
use mathlib.Core.List.{List, [], ◌∷◌, ◌++◌, map}
use native.Mathlib.Omega.{arith}

abbrev pub Text : Type 0
Text = List ℕ

abbrev pub codes : String → Text
codes String.[] = []
codes (String.◌∷◌ c s) = code c ∷ codes s

-- `char::is_control`: the general category Cc.
unfoldable pub is_control : ℕ → Bool
is_control c = leb c 31 || leb 127 c && leb c 159

-- `char::is_whitespace`: the property White_Space.
unfoldable pub is_whitespace : ℕ → Bool
is_whitespace c =
    leb 9 c && leb c 13
    || c == 32
    || c == 0x85
    || c == 0xA0
    || c == 0x1680
    || leb 0x2000 c && leb c 0x200A
    || c == 0x2028
    || c == 0x2029
    || c == 0x202F
    || c == 0x205F
    || c == 0x3000

unfoldable pub trim_start : Text → Text
trim_start [] = []
trim_start (c ∷ cs) = let rest = trim_start cs in if is_whitespace c then rest else c ∷ cs

-- A character is dropped at the end if nothing but whitespace is left behind it.
abbrev pub keep_end : Bool → ℕ → Text → Text
keep_end true c [] = []
keep_end true c (d ∷ ds) = c ∷ d ∷ ds
keep_end false c ds = c ∷ ds

unfoldable pub trim_end : Text → Text
trim_end [] = []
trim_end (c ∷ cs) = keep_end (is_whitespace c) c (trim_end cs)

unfoldable pub trim : Text → Text
unfolding trim_start trim_end is_whitespace
trim text = trim_end (trim_start text)

-- `len` of a `str`: the bytes of its UTF-8 form.
abbrev pub utf8_len : ℕ → ℕ
utf8_len c = if ltb c 0x80 then 1 else if ltb c 0x800 then 2 else if ltb c 0x10000 then 3 else 4

abbrev pub byte_len : Text → ℕ
byte_len [] = 0
byte_len (c ∷ cs) = utf8_len c + byte_len cs

abbrev pub ascii_lower : ℕ → ℕ
ascii_lower c = if leb 65 c && leb c 90 then c + 32 else c

abbrev pub to_ascii_lowercase : Text → Text
to_ascii_lowercase = map ascii_lower

abbrev pub starts_with : Text → Text → Bool
starts_with [] text = true
starts_with (p ∷ ps) [] = false
starts_with (p ∷ ps) (c ∷ cs) = p == c && starts_with ps cs

abbrev pub text_eq : Text → Text → Bool
text_eq [] [] = true
text_eq [] (_ ∷ _) = false
text_eq (_ ∷ _) [] = false
text_eq (a ∷ as') (b ∷ bs) = a == b && text_eq as' bs

-- `split(c).next()`: what stands in front of the first `c`.
abbrev pub before_first : ℕ → Text → Text
before_first c [] = []
before_first c (d ∷ ds) = if d == c then [] else d ∷ before_first c ds

pub text_eq_sound : (a b : Text) → text_eq a b ≡ true → a ≡ b
text_eq_sound [] [] h = refl
text_eq_sound [] (_ ∷ _) h = cc
text_eq_sound (_ ∷ _) [] h = cc
text_eq_sound (a ∷ as') (b ∷ bs) h = ground (arith, text_eq_sound as' bs)

pub text_eq_refl : (a : Text) → text_eq a a ≡ true
text_eq_refl [] = refl
text_eq_refl (a ∷ as') = ground (arith, text_eq_refl as')

-- `{n}`: the decimal digits of a number, with fuel for as many digits as it may have.
unfoldable pub decimal_digits : ℕ → ℕ → Text
decimal_digits zero n = []
decimal_digits (suc fuel) n =
    let front = decimal_digits fuel (n / 10) in
    if ltb n 10 then (48 + n) ∷ [] else front ++ (48 + n % 10) ∷ []

unfoldable pub decimal : ℕ → Text
unfolding decimal_digits
decimal n = decimal_digits (suc n) n

-- `{n:0w}`: padded with zeros in front to `w` characters.
unfoldable pub padded : ℕ → ℕ → Text
unfolding decimal
padded w n = let digits = decimal n in replicate (w - length digits) 48 ++ digits

-- The number that decimal digits stand for, behind the digits of `v`.
abbrev value_from : ℕ → Text → ℕ
value_from v [] = v
value_from v (d ∷ ds) = value_from (v * 10 + (d - 48)) ds

abbrev pub value : Text → ℕ
value = value_from 0

value_from-append :
    (v : ℕ) (xs : Text) (d : ℕ) → value_from v (xs ++ d ∷ []) ≡ value_from v xs * 10 + (d - 48)
value_from-append v [] d = refl
value_from-append v (x ∷ xs) d = value_from-append (v * 10 + (x - 48)) xs d

value_from-replicate : (k : ℕ) (xs : Text) → value_from 0 (replicate k 48 ++ xs) ≡ value_from 0 xs
value_from-replicate zero xs = refl
value_from-replicate (suc k) xs = value_from-replicate k xs

value-decimal_digits : (fuel n : ℕ) → n < fuel → value (decimal_digits fuel n) ≡ n
unfolding decimal_digits
value-decimal_digits zero n h = elim h [ ]
value-decimal_digits (suc fuel) n h = elim (Bool-cases (ltb n 10)) [
  | inl small ↦ rw small (omega arith)
  | inr large ↦
      rw large (
        rw value_from-append (rw (value-decimal_digits fuel (n / 10) (ground arith)) (omega arith)))
]

pub value-decimal : (n : ℕ) → value (decimal n) ≡ n
unfolding decimal
value-decimal n = value-decimal_digits (suc n) n (omega arith)

-- The digits of a padded number read back as the number.
pub value-padded : (w n : ℕ) → value (padded w n) ≡ n
unfolding padded
value-padded w n = value_from-replicate (w - length (decimal n)) (decimal n) ∙ value-decimal n

pub padded-injective : (w a b : ℕ) → padded w a ≡ padded w b → a ≡ b
padded-injective w a b h = omega (arith, ap value h, value-padded w a, value-padded w b)

abbrev pub power_of_ten : ℕ → ℕ
power_of_ten zero = 1
power_of_ten (suc k) = 10 * power_of_ten k

length-decimal_digits :
    (fuel n k : ℕ) → n < power_of_ten (suc k) → length (decimal_digits fuel n) ≤ suc k
unfolding decimal_digits
length-decimal_digits zero n k h = omega arith
length-decimal_digits (suc fuel) n zero h =
    let small : ltb n 10 ≡ true = ground arith in rw small (omega arith)
length-decimal_digits (suc fuel) n (suc k) h = elim (Bool-cases (ltb n 10)) [
  | inl small ↦ rw small (omega arith)
  | inr large ↦
      rw (large, length-append (decimal_digits fuel (n / 10)) ((48 + n % 10) ∷ []))
        (let shorter : length (decimal_digits fuel (n / 10)) ≤ suc k =
            length-decimal_digits fuel (n / 10) k (omega arith) in
          omega arith)
]

-- A number with at most `w` digits is padded to exactly `w` characters.
pub length-padded : (k n : ℕ) → n < power_of_ten (suc k) → length (padded (suc k) n) ≡ suc k
unfolding padded decimal
length-padded k n h =
    rw
      (
        length-append (replicate (suc k - length (decimal n)) 48) (decimal n),
        length-replicate {A = ℕ} (suc k - length (decimal n)) 48,
      )
      (let short : length (decimal n) ≤ suc k = length-decimal_digits (suc n) n k h in omega arith)

-- Texts that begin with parts of the same length agree part by part.
pub append-injective : (a b x y : Text) → length a ≡ length b → a ++ x ≡ b ++ y → (a ≡ b) × (x ≡ y)
append-injective [] [] x y l h = (refl, h)
append-injective [] (_ ∷ _) x y l h = absurd (omega arith)
append-injective (_ ∷ _) [] x y l h = absurd (omega arith)
append-injective (c ∷ a) (d ∷ b) x y l h =
    let rest = append-injective a b x y (omega arith) (cc) in
    (ap₂ (λ e es. e ∷ es) (cc) rest.0, rest.1)

pub starts_with-split :
    (prefix text : Text) → starts_with prefix text ≡ true → (rest : Text) × (text ≡ prefix ++ rest)
starts_with-split [] text h = (text, refl)
starts_with-split (p ∷ ps) [] h = absurd (cc)
starts_with-split (p ∷ ps) (c ∷ cs) h =
    let here : p ≡ c = ground arith in
    let (rest, e) = starts_with-split ps cs (ground arith) in
    (rest, ap₂ (λ d ds. d ∷ ds) (sym here) e)

pub starts_with-append : (prefix rest : Text) → starts_with prefix (prefix ++ rest) ≡ true
starts_with-append [] rest = refl
starts_with-append (p ∷ ps) rest = ground (arith, starts_with-append ps rest)
