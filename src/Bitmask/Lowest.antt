-- ===== src/Bitmask/Lowest.antt =====
-- A `find_lsb_set` that does what the kernel documents, for running the code that uses it.
use native.Mathlib.Nat.{pow-suc}
use mymouse.Base.{ℕ, zero, suc, ◌-◌, ◌/◌, ◌%◌, ◌^◌, ◌<◌, ◌≡◌, ◌==◌, if◌then◌else◌, arith}
use native.Mathlib.Decide.{ℕ_discrete}
use mymouse.Base.Bits.{test_bit}
use mymouse.Bitmask.{Ffs}

-- The number of zero bits below the lowest set one, of `w` bits at most.
unfoldable pub zeros : ℕ → ℕ → ℕ
zeros zero m = 0
zeros (suc w) m = if m % 2 == 1 then 0 else suc (zeros w (m / 2))

pub zeros-lt : (w m : ℕ) → 0 < m → m < 2 ^ w → zeros w m < w
unfolding zeros
zeros-lt zero m p h = absurd (omega arith)
zeros-lt (suc w) m p h = elim (ℕ_discrete (m % 2) 1) [
  | yes e ↦ rw e (omega arith)
  | no ne ↦ ground (arith, zeros-lt w (m / 2) (omega arith) (omega (arith, pow-suc 2 w)))
]

pub zeros_set : (w m : ℕ) → 0 < m → m < 2 ^ w → test_bit m (zeros w m) ≡ 1
unfolding zeros test_bit
zeros_set zero m p h = absurd (omega arith)
zeros_set (suc w) m p h = elim (ℕ_discrete (m % 2) 1) [
  | yes e ↦ rw e e
  | no ne ↦
      let z : m % 2 ≡ 0 = omega arith in
      rw z (zeros_set w (m / 2) (omega arith) (omega (arith, pow-suc 2 w)))
]

pub zeros_least : (w m i : ℕ) → i < zeros w m → test_bit m i ≡ 0
unfolding zeros test_bit
zeros_least zero m i h = absurd (omega arith)
zeros_least (suc w) m zero h = ground arith
zeros_least (suc w) m (suc i) h = zeros_least w (m / 2) i (ground arith)

pub pred-suc : (n : ℕ) → suc n - 1 ≡ n
pred-suc n = omega arith

abbrev pub lowest_bit : Ffs
lowest_bit = record {
  find_lsb_set = λ m. suc (zeros 32 m);
  lsb_pos = λ m p h. (omega arith, zeros-lt 32 m p h);
  lsb_set = λ m p h. rw (pred-suc (zeros 32 m)) (zeros_set 32 m p h);
  lsb_least = λ m p h i k. zeros_least 32 m i (rw (pred-suc (zeros 32 m)) at k);
}
