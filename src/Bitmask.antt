-- ===== src/Bitmask.antt =====
-- app-nrf/include/util/bitmanip.h, and the loop `while (mask) { pos = get_next_bit_pos(&mask); … }`
-- of its clients. A mask is a uint32_t; `WRITE_BIT` is `write_bit`. The kernel's `find_lsb_set` is
-- not of this repository: it is the parameter `Ffs`, with what the kernel documents of it.
pub mod Order
pub mod Lowest
mod Tests
use mymouse.Base.{
  ℕ, zero, suc, ◌+◌, ◌-◌, ◌^◌, ◌<◌, ◌≤◌, ◌≡◌, Bool, true, false, ◌==◌, if◌then◌else◌,
}
use mymouse.Base.Bits.{test_bit, write_bit}

-- The position of the least significant set bit, counted from 1, of a non-zero word.
pub record Ffs : Type 0 where
  pub find_lsb_set : ℕ → ℕ
  pub lsb_pos : (m : ℕ) → 0 < m → m < 2 ^ 32 → (0 < find_lsb_set m) × (find_lsb_set m ≤ 32)
  pub lsb_set : (m : ℕ) → 0 < m → m < 2 ^ 32 → test_bit m (find_lsb_set m - 1) ≡ 1
  pub lsb_least : (m : ℕ) → 0 < m → m < 2 ^ 32 → (i : ℕ) → i < find_lsb_set m - 1 → test_bit m i ≡ 0

-- BIT_AS_BOOL.
abbrev pub bit_as_bool : ℕ → ℕ → Bool
bit_as_bool m i = test_bit m i == 1

-- The position, and the mask with that bit cleared.
unfoldable pub get_next_bit_pos : Ffs → ℕ → ℕ × ℕ
get_next_bit_pos ffs mask = let pos = ffs.find_lsb_set mask - 1 in (pos, write_bit mask pos 0)

-- The loop, on fuel.
unfoldable pub for_each_bit {ℓ} : {S : Type ℓ} → Ffs → (ℕ → S → S) → ℕ → ℕ → S → S
unfolding get_next_bit_pos
for_each_bit ffs body zero mask s = s
for_each_bit ffs body (suc fuel) mask s = elim (mask == 0) [
  | true ↦ s
  | false ↦
      for_each_bit ffs body fuel (get_next_bit_pos ffs mask).1
        (body (get_next_bit_pos ffs mask).0 s)
]
