-- ===== src/Base/Bits/Step.antt =====
-- One equation for the lowest digit of a native bit operation.
use Prim.Native.Nat.{
  min, max, differ, digits, bitwise, bit_and, bit_or, bit_xor, bit_and-bitwise, bit_or-bitwise,
  bit_xor-bitwise,
}
use native.Mathlib.Decide.{ℕ_discrete}
use mymouse.Base.{ℕ, zero, suc, ◌+◌, ◌*◌, ◌/◌, ◌%◌, ◌≤◌, ◌<◌, ◌≡◌, refl, ◌∙◌, arith}

-- `op` works on two digits, and `rest` is what is left once the first number has run out.
module _ (rest : ℕ → ℕ) (op : ℕ → ℕ → ℕ) where
  -- A count of digits that is enough may grow by one.
  digits_grow :
      (count x y : ℕ) → x ≤ count → digits rest op (suc count) x y ≡ digits rest op count x y
  digits_grow zero zero y h = refl
  digits_grow zero (suc x) y h = absurd (omega arith)
  digits_grow (suc count) zero y h = refl
  digits_grow (suc count) (suc x) y h = rw (digits_grow count (suc x / 2) (y / 2) (omega arith))

  digits_enough : (count x y : ℕ) → x ≤ count → digits rest op count x y ≡ bitwise rest op x y
  digits_enough zero x y h = let e : x ≡ 0 = omega arith in rw e refl
  digits_enough (suc count) x y h = elim (ℕ_discrete x (suc count)) [
    | yes e ↦ rw e refl
    | no ne ↦ digits_grow count x y (omega arith) ∙ digits_enough count x y (omega arith)
  ]

  module _ (rest_step : (y : ℕ) → rest y ≡ rest (y / 2) * 2 + op 0 (y % 2)) where
    pub lowest_digit :
        (x y : ℕ) → bitwise rest op x y ≡ bitwise rest op (x / 2) (y / 2) * 2 + op (x % 2) (y % 2)
    lowest_digit zero y = rest_step y
    lowest_digit (suc x) y = rw (digits_enough x (suc x / 2) (y / 2) (omega arith)) refl

pub bit_or_step : (a b : ℕ) → bit_or a b ≡ bit_or (a / 2) (b / 2) * 2 + max (a % 2) (b % 2)
bit_or_step a b = simp bit_or-bitwise (lowest_digit (λ n. n) max (λ n. omega arith) a b)

pub bit_and_step : (a b : ℕ) → bit_and a b ≡ bit_and (a / 2) (b / 2) * 2 + min (a % 2) (b % 2)
bit_and_step a b = simp bit_and-bitwise (lowest_digit (λ n. 0) min (λ n. omega arith) a b)

-- Two digits differ if their sum is odd.
differ_digit : (x y : ℕ) → x < 2 → y < 2 → differ x y ≡ (x + y) % 2
differ_digit zero y hx hy = omega arith
differ_digit (suc x) zero hx hy = omega arith
differ_digit (suc x) (suc y) hx hy =
    let ex : x ≡ 0 = omega arith in let ey : y ≡ 0 = omega arith in rw (ex, ey) refl

pub bit_xor_step : (a b : ℕ) → bit_xor a b ≡ bit_xor (a / 2) (b / 2) * 2 + (a % 2 + b % 2) % 2
bit_xor_step a b =
    rw (← differ_digit (a % 2) (b % 2) (omega arith) (omega arith))
      (simp bit_xor-bitwise (lowest_digit (λ n. n) differ (λ n. omega arith) a b))
