-- ===== src/Sensor/Motion/Irq.antt =====
-- What the interrupt handler of gpio.c does to the motion pin, whatever other pins it handles.
use Prim.Native.Nat.{bit_and}
use native.Mathlib.Decide.{dec_lt}
use mymouse.Base.{ℕ, ◌^◌, ◌<◌, ◌≡◌, refl, Bool, Option, some, arith, ◌∙◌}
use mymouse.Base.Int.{pos}
use mymouse.Base.Bits.{
  test_bit, bit_not, test_bit-lt, test_bit-bit_and, test_bit-bit_not, test_bit-above,
}
use mymouse.Bitmask.{Ffs, bit_as_bool}
use mymouse.Bitmask.Order.{scan, scan_keep, scan_visit}
use mymouse.Hid.Collector.{KEvent}
use mymouse.Platform.Gpio.{irq_handler, interrupts_from}
use mymouse.Platform.Gpio.Laws.{irq_handler-scan}
use mymouse.Sensor.Motion.{hid_src_opt_sensor_gpio_cb, Motion, with_gpio, call}
use mymouse.Sensor.Motion.Apart.{
  pending, armed_level, IsApart, IsArmed, IsHandled, Holds, round, IsApart-IsHandled, IsApart-trans,
  round-apart, round-own,
}

module _ (kernel : KEvent) (ffs : Ffs) (source mot_pin : ℕ) (valid : source < 31)
    (fits : mot_pin < 32) (others : ℕ → ℕ → Bool → Motion kernel → Motion kernel)
    (apart : (i p : ℕ) (v : Bool) (m : Motion kernel)
      → IsApart kernel ffs source mot_pin valid fits m (others i p v m)) where
  open kernel use {bits, set_masked, bits-set_masked}

  abbrev pub Apart : Motion kernel → Motion kernel → Type 0
  Apart = IsApart kernel ffs source mot_pin valid fits

  abbrev pub Armed : Motion kernel → Type 0
  Armed = IsArmed kernel ffs source mot_pin valid fits

  abbrev pub level_of : Motion kernel → ℕ
  level_of = armed_level kernel ffs source mot_pin valid fits

  abbrev pub pending_of : Motion kernel → ℕ
  pending_of = pending kernel ffs source mot_pin valid fits

  abbrev pub Handled : Bool → Motion kernel → Type 0
  Handled = IsHandled kernel ffs source mot_pin valid fits

  abbrev pub After : (Motion kernel → Type 0) → Option (Motion kernel) → Type 0
  After = Holds kernel ffs source mot_pin valid fits

  module _ (levels : ℕ) (m : Motion kernel) (word : interrupts_from levels m.gpio < 2 ^ 32) where
    abbrev pub due : ℕ
    due = interrupts_from levels m.gpio

    abbrev masked : Motion kernel
    masked = record m {
      gpio = record (m.gpio) { int_enabled = bit_and m.gpio.int_enabled (bit_not 32 due) };
    }

    abbrev one_round : ℕ → Option (Motion kernel) → Option (Motion kernel)
    one_round = round kernel ffs source mot_pin valid fits others apart levels

    abbrev pub run_irq : Option (Motion kernel)
    run_irq =
        irq_handler (λ w. w.gpio) (with_gpio kernel) (call kernel ffs (pos source) others) ffs
          levels m

    run_irq-scan : run_irq ≡ scan one_round 32 0 due (some masked)
    run_irq-scan =
        (irq_handler-scan (λ w. w.gpio) (with_gpio kernel) (call kernel ffs (pos source) others) ffs
          levels m word).0

    pin_of_due : (p : ℕ) → test_bit due p ≡ 1 → p < 32
    pin_of_due p b = elim (dec_lt p 32) [
      | yes l ↦ l
      | no nl ↦ absurd (omega (arith, b, test_bit-above 32 due p word (omega arith)))
    ]

    -- A pin whose interrupt is due is handled in its round.
    pub run_irq-Handled :
        Armed m → test_bit due mot_pin ≡ 1 → After (Handled (bit_as_bool levels mot_pin)) run_irq
    run_irq-Handled armed b = rw run_irq-scan (
        scan_visit (After (λ w. w.gpio.callbacks mot_pin ≡ some hid_src_opt_sensor_gpio_cb))
          (After (Handled (bit_as_bool levels mot_pin))) one_round mot_pin due b
          (λ p o c ne x.
            round-apart kernel ffs source mot_pin valid fits others apart levels _
              (λ a a' ap e. ap.callback_kept ∙ e) p o (pin_of_due p c) ne x)
          (λ o x. round-own kernel ffs source mot_pin valid fits others apart levels o x)
          (λ p o c ne x.
            round-apart kernel ffs source mot_pin valid fits others apart levels _
              (IsApart-IsHandled kernel ffs source mot_pin valid fits _) p o (pin_of_due p c) ne x)
          32 0 (some masked) (omega arith) (omega arith) armed.callback)

    -- The others' rounds leave it as it is.
    pub run_irq-Apart : test_bit due mot_pin ≡ 0 → After (Apart m) run_irq
    run_irq-Apart z = rw run_irq-scan (
        scan_keep (After (Apart m)) one_round 32 0 due (some masked)
          (λ p o c x.
            round-apart kernel ffs source mot_pin valid fits others apart levels (Apart m)
              (λ a a' ap k. IsApart-trans kernel ffs source mot_pin valid fits m a a' k ap) p o
              (pin_of_due p c) (λ (e : p ≡ mot_pin). ground arith) x)
          (record {
            enabled_kept =
                test_bit-bit_and m.gpio.int_enabled (bit_not 32 due) mot_pin
                ∙ rw (test_bit-bit_not 32 due mot_pin word fits, z)
                    (omega (arith, test_bit-lt m.gpio.int_enabled mot_pin));
            level_kept = refl;
            callback_kept = refl;
            sense_kept = refl;
            pending_kept = λ k. k;
          }))
