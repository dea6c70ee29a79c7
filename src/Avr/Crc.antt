-- ===== src/Avr/Crc.antt =====
-- `update_crc` of app-nrf/src/services/avr_comm.c. Its counterpart on the AVR is the function
-- `_crc_ibutton_update` of avr-libc, which is not of this repository: it is the parameter
-- `Ibutton`, with what its documentation says, the loop that `update_crc` was taken from.
pub mod Laws
pub mod Loop
use Prim.Native.Nat.{bit_xor}
use mymouse.Base.{ℕ, zero, suc, ◌/◌, ◌%◌, ◌<◌, ◌≡◌, List, [], ◌∷◌, ◌==◌, if◌then◌else◌}

-- The body of the loop.
unfoldable pub shift_out : ℕ → ℕ
shift_out crc = if crc % 2 == 1 then bit_xor (crc / 2) 0x8C else crc / 2

-- The loop, with the rounds that are left.
unfoldable pub shift_all : ℕ → ℕ → ℕ
shift_all zero crc = crc
shift_all (suc n) crc = shift_all n (shift_out crc)

unfoldable pub update_crc : ℕ → ℕ → ℕ
update_crc crc byte = shift_all 8 (bit_xor crc byte)

-- The loops over a buffer.
unfoldable pub crc_from : ℕ → List ℕ → ℕ
crc_from crc [] = crc
crc_from crc (b ∷ bs) = crc_from (update_crc crc b) bs

pub record Ibutton : Type 0 where
  pub crc_ibutton_update : ℕ → ℕ → ℕ
  pub update_lem :
      (crc byte : ℕ) → crc < 256 → byte < 256 → crc_ibutton_update crc byte ≡ update_crc crc byte
