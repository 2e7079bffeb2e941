-- ===== src/Prelude/Rounding.antt =====
-- `div_ceil`: division that rounds up.
use sintade.Prelude.Tests.{◌==◌, if◌then◌else◌, Bool-cases}
use Prim.Native.Nat.{ℕ, suc, ◌+◌, ◌*◌, ◌/◌, ◌%◌, ◌≤◌, ◌<◌}
use mathlib.Core.Path.{◌≡◌}
use mathlib.Core.Logic.{◌↔◌, inl, inr}
use native.Mathlib.Omega.{arith}
use native.Mathlib.Nat.{
  mod-add-div, mod-lt, mul-suc, mul-le-mul_left, le_of_mul-le-mul_left, lt_of_mul-lt-mul_left,
}

abbrev pub div_ceil : ℕ → ℕ → ℕ
div_ceil a b = if a % b == 0 then a / b else a / b + 1

-- Dividing and rounding up: the least number of parts that is enough.
pub div_ceil_iff : (a b n : ℕ) → 0 < b → (div_ceil a b ≤ n) ↔ (a ≤ b * n)
div_ceil_iff a b n pos =
    let whole = mod-add-div a b in
    let small = mod-lt a pos in
    elim (Bool-cases (a % b == 0)) [
      | inl even ↦ rw even (
        (λ h.
            let scaled = mul-le-mul_left b h in
            let none_left : a % b ≡ 0 = ground arith in omega arith),
        (λ h.
            let none_left : a % b ≡ 0 = ground arith in
            le_of_mul-le-mul_left {k = b} (let bound : b * (a / b) ≤ b * n = omega arith in bound)
              pos),
      )
      | inr odd ↦ rw odd (
        (λ h.
            let scaled : b * suc (a / b) ≤ b * n = mul-le-mul_left b (omega (arith, h)) in
            let unfolded = mul-suc b (a / b) in omega arith),
        (λ h.
            let some_left : 0 < a % b = ground arith in
            let below : a / b < n =
              lt_of_mul-lt-mul_left b (let bound : b * (a / b) < b * n = omega arith in bound) in
            omega arith),
      )
    ]
