-- ===== src/Sensor/Motion/Kept.antt =====
-- While the motion pin is low, the collector is going to run the sensor's filler.
use Prim.Native.Nat.{bit_xor}
use mymouse.Base.{
  ℕ, ◌^◌, ◌<◌, ◌≡◌, refl, ◌⊎◌, inl, inr, Bool, true, false, ◌||◌, some, ◌==◌, if◌then◌else◌, arith,
  ◌∙◌, sym,
}
use mymouse.Base.Int.{pos}
use mymouse.Base.Bits.{test_bit, test_bit-lt, test_bit-bit_and, test_bit-bit_xor}
use native.Mathlib.Decide.{ℕ_discrete}
use mymouse.Bitmask.{Ffs, bit_as_bool}
use mymouse.Hid.Collector.Rounds.{pending-taken}
use mymouse.Sensor.Motion.Steps.{
  Line, taken, Step, toggled, interrupted, received, filled, elsewhere, Reach, here, next,
}
use mymouse.Hid.Collector.{KEvent}
use mymouse.Platform.Gpio.{sense_low, irq_handler, interrupts_from}
use mymouse.Sensor.{MotionBurst, report_filler}
use mymouse.Sensor.Motion.{Motion, with_gpio, call, init, fill, hid_src_opt_sensor_gpio_cb}
use mymouse.Sensor.Motion.Apart.{IsApart, gpio_cb-own, IsApart-IsArmed, pending-notify}
use mymouse.Sensor.Motion.Irq.{Armed, pending_of, Handled, run_irq-Handled, run_irq-Apart}

module _ (kernel : KEvent) (ffs : Ffs) (source mot_pin : ℕ) (valid : source < 31)
    (fits : mot_pin < 32) (others : ℕ → ℕ → Bool → Motion kernel → Motion kernel)
    (apart : (i p : ℕ) (v : Bool) (m : Motion kernel)
      → IsApart kernel ffs source mot_pin valid fits m (others i p v m)) where
  abbrev event : Motion kernel → ℕ
  event = pending_of kernel ffs source mot_pin valid fits others apart

  -- The interrupt is armed, and a low level that it was armed from has not been forgotten.
  record IsKept (s : Line kernel ffs source mot_pin valid fits others apart) : Type 0 where
    armed : Armed kernel ffs source mot_pin valid fits others apart s.motion
    kept :
        s.level ≡ false
        → test_bit s.motion.gpio.from_level mot_pin ≡ 0
        → (event s.motion ≡ 1) ⊎ (s.serving ≡ true)

  apart-IsKept :
      (s : Line kernel ffs source mot_pin valid fits others apart) (m : Motion kernel)
      → IsApart kernel ffs source mot_pin valid fits s.motion m
      → IsKept s
      → IsKept (record s { motion = m })
  apart-IsKept s m a k = record {
    armed = IsApart-IsArmed kernel ffs source mot_pin valid fits s.motion m a k.armed;
    kept = λ low z. elim (k.kept low (sym a.level_kept ∙ z)) [
      | inl p ↦ inl (a.pending_kept p)
      | inr v ↦ inr v
    ];
  }

  taken_event :
      (events : ℕ) (m : Motion kernel)
      → events < 2 ^ 32
      → event (taken kernel ffs source mot_pin valid fits others apart events m)
        ≡ (if test_bit events source == 1 then 0 else event m)
  taken_event events m h =
      pending-taken kernel {S = ℕ} events
        (record { collector = m.collector; report = m.report; rest = 0 }) h source (omega arith)

  fill_lem :
      (threshold : ℕ) (burst : MotionBurst) (level : Bool) (m : Motion kernel)
      → Armed kernel ffs source mot_pin valid fits others apart m
      → let m' = fill kernel ffs (pos source) threshold burst level m in
        Armed kernel ffs source mot_pin valid fits others apart m' × (level ≡ false → event m' ≡ 1)
  unfolding fill report_filler
  fill_lem threshold burst true m a =
      (record { enabled = a.enabled; callback = a.callback; sense = a.sense }, λ e. cc)
  fill_lem threshold burst false m a = (
    record { enabled = a.enabled; callback = a.callback; sense = a.sense },
    λ e. pending-notify kernel ffs source mot_pin valid fits m,
  )

  fill-IsKept :
      (threshold : ℕ) (burst : MotionBurst)
      (s : Line kernel ffs source mot_pin valid fits others apart)
      → IsKept s
      → IsKept (record s {
        motion = fill kernel ffs (pos source) threshold burst s.level s.motion;
        serving = false;
      })
  fill-IsKept threshold burst s k =
      let (armed, noticed) = fill_lem threshold burst s.level s.motion k.armed in
      record { armed = armed; kept = λ low z. inl (noticed low) }

  irq-IsKept :
      (levels : ℕ) (s : Line kernel ffs source mot_pin valid fits others apart) (m : Motion kernel)
      → interrupts_from levels s.motion.gpio < 2 ^ 32
      → bit_as_bool levels mot_pin ≡ s.level
      → irq_handler
          (λ w. w.gpio)
          (with_gpio kernel)
          (call kernel ffs (pos source) others)
          ffs
          levels
          s.motion
        ≡ some m
      → IsKept s
      → IsKept (record s { motion = m })
  irq-IsKept levels s m word l e k =
      elim (ℕ_discrete (test_bit (interrupts_from levels s.motion.gpio) mot_pin) 1) [
        | yes b ↦
            let h : Handled kernel ffs source mot_pin valid fits others apart
                (bit_as_bool levels mot_pin) m =
              rw e at (
                run_irq-Handled kernel ffs source mot_pin valid fits others apart levels s.motion
                  word k.armed b) in
            record { armed = h.armed; kept = λ low z. inl (h.notified (l ∙ low)) }
        | no nb ↦
            let a : IsApart kernel ffs source mot_pin valid fits s.motion m = rw e at (
              run_irq-Apart kernel ffs source mot_pin valid fits others apart levels s.motion word
                (omega (arith, test_bit-lt (interrupts_from levels s.motion.gpio) mot_pin))) in
            apart-IsKept s m a k
      ]

  received-IsKept :
      (events : ℕ) (s : Line kernel ffs source mot_pin valid fits others apart)
      → events < 2 ^ 32
      → IsKept s
      → IsKept (record s {
        motion = taken kernel ffs source mot_pin valid fits others apart events s.motion;
        serving = bit_as_bool events source || s.serving;
      })
  received-IsKept events s word k = record {
    armed = record {
      enabled = k.armed.enabled;
      callback = k.armed.callback;
      sense = k.armed.sense;
    };
    kept = λ low z. elim (ℕ_discrete (test_bit events source) 1) [
      | yes b ↦ inr (rw b refl)
      | no nb ↦ elim (k.kept low z) [
        | inl p ↦ inl (ground (arith, taken_event events s.motion word, p, nb))
        | inr v ↦ inr (ground (arith, v))
      ]
    ];
  }

  Step-IsKept :
      {s t : Line kernel ffs source mot_pin valid fits others apart}
      → Step kernel ffs source mot_pin valid fits others apart s t
      → IsKept s
      → IsKept t
  Step-IsKept {s} (toggled agrees e) k = rw e (record {
    armed = k.armed;
    kept = λ low z. ground (arith, agrees, low, z, test_bit-lt s.motion.gpio.from_level mot_pin);
  })
  Step-IsKept {s} (interrupted levels m word l r e) k = rw e (irq-IsKept levels s m word l r k)
  Step-IsKept {s} (received events word e) k = rw e (received-IsKept events s word k)
  Step-IsKept {s} (filled threshold burst e) k = rw e (fill-IsKept threshold burst s k)
  Step-IsKept {s} (elsewhere m a e) k = rw e (apart-IsKept s m a k)

  -- A state of the mouse after `hid_src_opt_sensor_init` has read the pin.
  abbrev pub started : Bool → Motion kernel → Line kernel ffs source mot_pin valid fits others apart
  started level m = record {
    motion = init kernel ffs (pos source) mot_pin level m;
    level = level;
    serving = false;
  }

  started-IsKept : (level : Bool) (m : Motion kernel) → IsKept (started level m)
  unfolding init
  started-IsKept level m =
      let own = gpio_cb-own kernel ffs source mot_pin valid fits level m in
      record { armed = own.0; kept = λ low z. inl (own.2 low) }

  Reach-IsKept :
      {s t : Line kernel ffs source mot_pin valid fits others apart}
      → IsKept s
      → Reach kernel ffs source mot_pin valid fits others apart s t
      → IsKept t
  Reach-IsKept k here = k
  Reach-IsKept k (next r st) = Step-IsKept st (Reach-IsKept k r)

  -- From the initialisation on, in every order of changes of the pin, interrupts, rounds of the
  -- collector and other code, a motion pin that is low is not forgotten: the source's event is
  -- pending, or its filler is about to read the pin, or the interrupt that posts the event is due,
  -- as the pin senses the low level. The pin does not change while its interrupt is due, and the
  -- other code leaves the pin's registers, and does not take the event.
  pub motion_kept :
      (level : Bool) (m : Motion kernel)
      (t : Line kernel ffs source mot_pin valid fits others apart)
      → Reach kernel ffs source mot_pin valid fits others apart (started level m) t
      → t.level ≡ false
      → (levels : ℕ) → bit_as_bool levels mot_pin ≡ t.level
      → (event t.motion ≡ 1)
        ⊎ ((t.serving ≡ true)
            ⊎ ((test_bit (interrupts_from levels t.motion.gpio) mot_pin ≡ 1)
                × (t.motion.gpio.callbacks mot_pin ≡ some hid_src_opt_sensor_gpio_cb)
                × (t.motion.gpio.sense mot_pin ≡ sense_low)))
  motion_kept level m t r low levels l =
      let k = Reach-IsKept (started-IsKept level m) r in
      elim (ℕ_discrete (test_bit t.motion.gpio.from_level mot_pin) 1) [
        | yes b ↦ inr (
            inr (
              ground (
                arith,
                test_bit-bit_and (bit_xor levels t.motion.gpio.from_level) t.motion.gpio.int_enabled
                    mot_pin,
                test_bit-bit_xor levels t.motion.gpio.from_level mot_pin,
                k.armed.enabled,
                b,
                l,
                low,
                test_bit-lt levels mot_pin,
              ),
              k.armed.callback,
              k.armed.sense ∙ rw b refl,
            ))
        | no nb ↦ elim (k.kept low (omega (arith, test_bit-lt t.motion.gpio.from_level mot_pin))) [
          | inl p ↦ inl p
          | inr v ↦ inr (inl v)
        ]
      ]
