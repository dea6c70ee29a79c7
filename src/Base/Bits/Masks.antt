-- ===== src/Base/Bits/Masks.antt =====
-- Shifts and masks of bytes as sums and remainders.
use Prim.Native.Nat.{bit_and, bit_or, bit_or-bitwise}
use native.Mathlib.Nat.{pow-suc, one-le-pow, le_refl}
use mymouse.Base.{ℕ, zero, suc, ◌+◌, ◌-◌, ◌*◌, ◌/◌, ◌%◌, ◌^◌, ◌<◌, ◌≤◌, ◌≡◌, ◌∙◌, refl, min, arith}
use mymouse.Base.Bits.Step.{bit_and_step, bit_or_step}

bit_and-none : (n a : ℕ) → a ≤ n → bit_and a 0 ≡ 0
bit_and-none zero a h = let e : a ≡ 0 = omega arith in rw e refl
bit_and-none (suc n) a h = omega (arith, bit_and_step a 0, bit_and-none n (a / 2) (omega arith))

double : (k w : ℕ) → k * 2 ^ suc w ≡ k * 2 ^ w * 2
double k w = grind (arith, pow-suc 2 w)

-- A mask of ones at the bottom keeps the remainder.
pub bit_and-ones : (w q r : ℕ) → r < 2 ^ w → bit_and (q * 2 ^ w + r) (2 ^ w - 1) ≡ r
bit_and-ones zero q r h = let e : r ≡ 0 = omega arith in rw e (bit_and-none _ _ (le_refl _))
bit_and-ones (suc w) q r h =
    let ones : (2 ^ suc w - 1) / 2 ≡ 2 ^ w - 1 = omega (arith, pow-suc 2 w, one-le-pow w 2) in
    let odd : (2 ^ suc w - 1) % 2 ≡ 1 = omega (arith, pow-suc 2 w, one-le-pow w 2) in
    let half : (q * 2 ^ suc w + r) / 2 ≡ q * 2 ^ w + r / 2 = omega (arith, double q w) in
    let last : (q * 2 ^ suc w + r) % 2 ≡ r % 2 = omega (arith, double q w) in
    bit_and_step (q * 2 ^ suc w + r) (2 ^ suc w - 1)
    ∙ rw (half, last, ones, odd, bit_and-ones w q (r / 2) (omega (arith, pow-suc 2 w)))
        (omega arith)

-- A number below the lowest bit of another one.
pub bit_or-disjoint : (w a k : ℕ) → a < 2 ^ w → bit_or a (k * 2 ^ w) ≡ a + k * 2 ^ w
bit_or-disjoint zero a k h =
    let e : a ≡ 0 = omega arith in rw e (bit_or-bitwise 0 (k * 2 ^ 0) ∙ omega arith)
bit_or-disjoint (suc w) a k h =
    let half : k * 2 ^ suc w / 2 ≡ k * 2 ^ w = omega (arith, double k w) in
    let last : k * 2 ^ suc w % 2 ≡ 0 = omega (arith, double k w) in
    bit_or_step a (k * 2 ^ suc w)
    ∙ rw (half, last, bit_or-disjoint w (a / 2) k (omega (arith, pow-suc 2 w)))
        (omega (arith, double k w))

-- The upper four bits of a byte.
pub bit_and-high : (h : ℕ) → h < 256 → bit_and h 0xF0 ≡ h / 16 * 16
bit_and-high h k =
    let s₁ : bit_and h 0xF0 ≡ bit_and (h / 2) 0x78 * 2 + min (h % 2) 0 = bit_and_step h 0xF0 in
    let s₂ : bit_and (h / 2) 0x78 ≡ bit_and (h / 2 / 2) 0x3C * 2 + min (h / 2 % 2) 0 =
      bit_and_step (h / 2) 0x78 in
    let s₃ : bit_and (h / 2 / 2) 0x3C ≡ bit_and (h / 2 / 2 / 2) 0x1E * 2 + min (h / 2 / 2 % 2) 0 =
      bit_and_step (h / 2 / 2) 0x3C in
    let s₄ : bit_and (h / 2 / 2 / 2) 0x1E
        ≡ bit_and (h / 2 / 2 / 2 / 2) 0x0F * 2 + min (h / 2 / 2 / 2 % 2) 0 =
      bit_and_step (h / 2 / 2 / 2) 0x1E in
    let e : 0 * 2 ^ 4 + h / 16 ≡ h / 2 / 2 / 2 / 2 = omega arith in
    let ones : bit_and (h / 2 / 2 / 2 / 2) 0x0F ≡ h / 16 =
      rw e at (bit_and-ones 4 0 (h / 16) (omega arith)) in
    omega (arith, s₁, s₂, s₃, s₄, ones)

-- Its lower four bits.
pub bit_and-low : (h : ℕ) → bit_and h 0x0F ≡ h % 16
bit_and-low h =
    let e : h / 16 * 2 ^ 4 + h % 16 ≡ h = omega arith in
    rw e at (bit_and-ones 4 (h / 16) (h % 16) (omega arith))

-- A mask that starts at bit `w`.
pub bit_and-shifted :
    (w q r m : ℕ) → r < 2 ^ w → bit_and (q * 2 ^ w + r) (m * 2 ^ w) ≡ bit_and q m * 2 ^ w
bit_and-shifted zero q r m h =
    let eq : q * 2 ^ 0 + r ≡ q = omega arith in
    let em : m * 2 ^ 0 ≡ m = omega arith in rw (eq, em) (omega arith)
bit_and-shifted (suc w) q r m h =
    let half : (q * 2 ^ suc w + r) / 2 ≡ q * 2 ^ w + r / 2 = omega (arith, double q w) in
    let half_mask : m * 2 ^ suc w / 2 ≡ m * 2 ^ w = omega (arith, double m w) in
    let last : m * 2 ^ suc w % 2 ≡ 0 = omega (arith, double m w) in
    bit_and_step (q * 2 ^ suc w + r) (m * 2 ^ suc w)
    ∙ rw (half, half_mask, last, bit_and-shifted w q (r / 2) m (omega (arith, pow-suc 2 w)))
        (omega (arith, double (bit_and q m) w))
