-- ===== src/Platform/Tests.antt =====
-- The theorems on the GPIO driver at concrete inputs.
use Prim.Native.Nat.{bit_and}
use mymouse.Base.{◌==◌, if◌then◌else◌, ◌%◌, ◌+◌, ℕ, zero, suc, ◌^◌, ◌≡◌, Bool, none, some, arith}
use mymouse.Base.Bits.{test_bit, bit_not}
use mymouse.Bitmask.Order.{scan}
use mymouse.Bitmask.Lowest.{lowest_bit}
use mymouse.Platform.Gpio.{
  Gpio, no_sense, sense_low, sense_high, set_edge_cb_mask, interrupts_from, handle, irq_handler,
}
use mymouse.Platform.Gpio.Laws.{set_edge_cb_mask-pin, irq_handler-scan}

-- Pin 2 is armed, with the callback 7, at the low level.
abbrev pin_2_armed : Gpio ℕ
pin_2_armed = record {
  int_enabled = 4;
  from_level = 0;
  callbacks = λ pin. elim pin [ suc (suc zero) ↦ some 7 | _ ↦ none ];
  sense = λ pin. elim pin [ suc (suc zero) ↦ sense_high | _ ↦ no_sense ];
}

-- The pins 2 and 31 are armed, pin 31 at the high level.
set_edge_cb_mask-pin_example :
    let g = set_edge_cb_mask lowest_bit 0x80000004 0x80000000 9 pin_2_armed in
    (test_bit g.int_enabled 31 ≡ 1)
    × (test_bit g.from_level 31 ≡ 1)
    × (g.callbacks 31 ≡ some 9)
    × (g.sense 31 ≡ sense_low)
unfolding test_bit
set_edge_cb_mask-pin_example =
    set_edge_cb_mask-pin lowest_bit 0x80000004 0x80000000 9 pin_2_armed (omega arith) 31
      (omega arith)

-- A program whose state is the driver's, with callbacks that arm their pin again at the new level.
abbrev same_gpio : Gpio ℕ → Gpio ℕ
same_gpio g = g

abbrev replace_gpio : Gpio ℕ → Gpio ℕ → Gpio ℕ
replace_gpio old new = new

abbrev arm_again : ℕ → ℕ → Bool → Gpio ℕ → Gpio ℕ
arm_again callback pin level = set_edge_cb_mask lowest_bit (2 ^ pin) 0 callback

irq_handler-scan_example :
    (irq_handler same_gpio replace_gpio arm_again lowest_bit 5 pin_2_armed
      ≡ scan (handle same_gpio replace_gpio arm_again 5) 32 0 (interrupts_from 5 pin_2_armed) (
          some (record pin_2_armed {
            int_enabled = bit_and 4 (bit_not 32 (interrupts_from 5 pin_2_armed));
          })))
    × ((pin : ℕ)
        → test_bit (interrupts_from 5 pin_2_armed) pin
          ≡ (if test_bit 4 pin == 1 then (test_bit 5 pin + test_bit 0 pin) % 2 else 0))
irq_handler-scan_example =
    irq_handler-scan same_gpio replace_gpio arm_again lowest_bit 5 pin_2_armed (omega arith)
