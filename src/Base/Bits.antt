-- ===== src/Base/Bits.antt =====
-- Bits of machine words. `test_bit m i` is bit `i` of `m`, 0 or 1; `write_bit` is the macro
-- WRITE_BIT. The operators `|`, `&`, `^` and `~` are described bit by bit.
pub mod Step
pub mod Masks
use Step.{bit_or_step, bit_and_step, bit_xor_step}
use Prim.Native.Nat.{bit_and, bit_or, bit_xor, bit_and-bitwise, bit_or-bitwise}
use native.Mathlib.Nat.{pow-suc, one-le-pow}
use mymouse.Base.{
  ℕ, zero, suc, ◌+◌, ◌-◌, ◌*◌, ◌/◌, ◌%◌, ◌^◌, ◌≤◌, ◌<◌, ◌≡◌, refl, ◌≢◌, min, max, arith, ◌∙◌, ◌↔◌,
  ◌==◌, if◌then◌else◌,
}

unfoldable pub test_bit : ℕ → ℕ → ℕ
test_bit m zero = m % 2
test_bit m (suc i) = test_bit (m / 2) i

-- WRITE_BIT(m, i, b), for `b` 0 or 1.
unfoldable pub write_bit : ℕ → ℕ → ℕ → ℕ
write_bit m zero b = m / 2 * 2 + b % 2
write_bit m (suc i) b = write_bit (m / 2) i b * 2 + m % 2

-- `~m` of a word of `w` bits.
abbrev pub bit_not : ℕ → ℕ → ℕ
bit_not w m = 2 ^ w - 1 - m

pub test_bit-lt : (m i : ℕ) → test_bit m i < 2
unfolding test_bit
test_bit-lt m zero = omega arith
test_bit-lt m (suc i) = test_bit-lt (m / 2) i

pub test_bit-zero : (i : ℕ) → test_bit 0 i ≡ 0
unfolding test_bit
test_bit-zero zero = refl
test_bit-zero (suc i) = test_bit-zero i

pub test_bit-write_bit_self : (m i b : ℕ) → test_bit (write_bit m i b) i ≡ b % 2
unfolding test_bit write_bit
test_bit-write_bit_self m zero b = omega arith
test_bit-write_bit_self m (suc i) b =
    let e : (write_bit (m / 2) i b * 2 + m % 2) / 2 ≡ write_bit (m / 2) i b = omega arith in
    rw e (test_bit-write_bit_self (m / 2) i b)

pub test_bit-write_bit_ne : (m i j b : ℕ) → i ≢ j → test_bit (write_bit m i b) j ≡ test_bit m j
unfolding test_bit write_bit
test_bit-write_bit_ne m zero zero b h = absurd (h refl)
test_bit-write_bit_ne m zero (suc j) b h =
    let e : (m / 2 * 2 + b % 2) / 2 ≡ m / 2 = omega arith in rw e refl
test_bit-write_bit_ne m (suc i) zero b h = omega arith
test_bit-write_bit_ne m (suc i) (suc j) b h =
    let e : (write_bit (m / 2) i b * 2 + m % 2) / 2 ≡ write_bit (m / 2) i b = omega arith in
    rw e (test_bit-write_bit_ne (m / 2) i j b (λ (p : i ≡ j). h (omega arith)))

pub test_bit-bit_or : (a b i : ℕ) → test_bit (bit_or a b) i ≡ max (test_bit a i) (test_bit b i)
unfolding test_bit
test_bit-bit_or a b zero = omega (arith, bit_or_step a b)
test_bit-bit_or a b (suc i) =
    let e : bit_or a b / 2 ≡ bit_or (a / 2) (b / 2) = omega (arith, bit_or_step a b) in
    rw e (test_bit-bit_or (a / 2) (b / 2) i)

pub test_bit-bit_and : (a b i : ℕ) → test_bit (bit_and a b) i ≡ min (test_bit a i) (test_bit b i)
unfolding test_bit
test_bit-bit_and a b zero = omega (arith, bit_and_step a b)
test_bit-bit_and a b (suc i) =
    let e : bit_and a b / 2 ≡ bit_and (a / 2) (b / 2) = omega (arith, bit_and_step a b) in
    rw e (test_bit-bit_and (a / 2) (b / 2) i)

pub test_bit-bit_xor : (a b i : ℕ) → test_bit (bit_xor a b) i ≡ (test_bit a i + test_bit b i) % 2
unfolding test_bit
test_bit-bit_xor a b zero = omega (arith, bit_xor_step a b)
test_bit-bit_xor a b (suc i) =
    let e : bit_xor a b / 2 ≡ bit_xor (a / 2) (b / 2) = omega (arith, bit_xor_step a b) in
    rw e (test_bit-bit_xor (a / 2) (b / 2) i)

pub test_bit-bit_not : (w m i : ℕ) → m < 2 ^ w → i < w → test_bit (bit_not w m) i ≡ 1 - test_bit m i
unfolding test_bit
test_bit-bit_not zero m i h k = absurd (omega arith)
test_bit-bit_not (suc w) m zero h k = omega (arith, pow-suc 2 w, one-le-pow w 2)
test_bit-bit_not (suc w) m (suc i) h k =
    let e : bit_not (suc w) m / 2 ≡ bit_not w (m / 2) =
      omega (arith, pow-suc 2 w, one-le-pow w 2) in
    rw e (test_bit-bit_not w (m / 2) i (omega (arith, pow-suc 2 w)) (omega arith))

-- A word is determined by its bits.
pub bits_ext :
    (w a b : ℕ) → a < 2 ^ w → b < 2 ^ w → ((i : ℕ) → i < w → test_bit a i ≡ test_bit b i) → a ≡ b
unfolding test_bit
bits_ext zero a b ha hb h = omega arith
bits_ext (suc w) a b ha hb h =
    let q : a / 2 ≡ b / 2 =
      bits_ext w (a / 2) (b / 2) (omega (arith, pow-suc 2 w)) (omega (arith, pow-suc 2 w))
        (λ i k. h (suc i) (omega arith)) in
    omega (arith, h 0 (omega arith))

pub write_bit-lt : (w m i b : ℕ) → m < 2 ^ w → i < w → write_bit m i b < 2 ^ w
unfolding write_bit
write_bit-lt zero m i b h k = absurd (omega arith)
write_bit-lt (suc w) m zero b h k = omega (arith, pow-suc 2 w)
write_bit-lt (suc w) m (suc i) b h k =
    omega
      (arith, pow-suc 2 w, write_bit-lt w (m / 2) i b (omega (arith, pow-suc 2 w)) (omega arith))

zero-bit_and : (b : ℕ) → bit_and 0 b ≡ 0
zero-bit_and b = bit_and-bitwise 0 b

zero-bit_or : (b : ℕ) → bit_or 0 b ≡ b
zero-bit_or b = bit_or-bitwise 0 b

pub bit_and-lt : (w a b : ℕ) → a < 2 ^ w → bit_and a b < 2 ^ w
bit_and-lt zero a b h = let e : a ≡ 0 = omega arith in rw (e, zero-bit_and b) (omega arith)
bit_and-lt (suc w) a b h = omega (
  arith,
  pow-suc 2 w,
  bit_and_step a b,
  bit_and-lt w (a / 2) (b / 2) (omega (arith, pow-suc 2 w)),
)

pub bit_or-lt : (w a b : ℕ) → a < 2 ^ w → b < 2 ^ w → bit_or a b < 2 ^ w
bit_or-lt zero a b h k = let e : a ≡ 0 = omega arith in rw (e, zero-bit_or b) (omega arith)
bit_or-lt (suc w) a b h k = omega (
  arith,
  pow-suc 2 w,
  bit_or_step a b,
  bit_or-lt w (a / 2) (b / 2) (omega (arith, pow-suc 2 w)) (omega (arith, pow-suc 2 w)),
)

-- The single bit BIT(k).
pub test_bit-pow : (k i : ℕ) → test_bit (2 ^ k) i ≡ (if i == k then 1 else 0)
unfolding test_bit
test_bit-pow zero zero = refl
test_bit-pow zero (suc i) = test_bit-zero i ∙ ground arith
test_bit-pow (suc k) zero = ground (arith, pow-suc 2 k)
test_bit-pow (suc k) (suc i) =
    let e : 2 ^ suc k / 2 ≡ 2 ^ k = omega (arith, pow-suc 2 k) in
    rw e (test_bit-pow k i ∙ ground arith)

-- A bit above the width of a word is 0.
pub test_bit-above : (w m i : ℕ) → m < 2 ^ w → w ≤ i → test_bit m i ≡ 0
unfolding test_bit
test_bit-above zero m i h k = let e : m ≡ 0 = omega arith in rw e (test_bit-zero i)
test_bit-above (suc w) m zero h k = absurd (omega arith)
test_bit-above (suc w) m (suc i) h k =
    test_bit-above w (m / 2) i (omega (arith, pow-suc 2 w)) (omega arith)

-- The test `m & BIT(k)`.
pub bit_and-pow_iff : (w m k : ℕ) → m < 2 ^ w → (bit_and m (2 ^ k) ≡ 0) ↔ (test_bit m k ≡ 0)
bit_and-pow_iff w m k h = (
  λ e.
      let bit : test_bit (bit_and m (2 ^ k)) k ≡ 0 = rw e (test_bit-zero k) in
      ground (arith, bit, test_bit-bit_and m (2 ^ k) k, test_bit-pow k k, test_bit-lt m k),
  λ z.
      bits_ext w (bit_and m (2 ^ k)) 0 (bit_and-lt w m (2 ^ k) h) (omega (arith, one-le-pow w 2))
        λ i l. ground (arith, test_bit-bit_and m (2 ^ k) i, test_bit-pow k i, test_bit-zero i),
)
