-- ===== src/Sensor/Motion/Tests.antt =====
-- The motion pin goes low, the collector takes the event, and the filler reads the pin.
use mymouse.Base.{ℕ, ◌<◌, ◌≡◌, refl, ◌⊎◌, Bool, true, false, none, some, arith}
use mymouse.Base.Int.{pos}
use mymouse.Base.Bits.{test_bit}
use mymouse.Bitmask.Lowest.{lowest_bit}
use mymouse.Hid.Collector.Simple.{word_event}
use mymouse.Hid.Report.{empty}
use mymouse.Platform.Gpio.{no_sense, sense_low, interrupts_from}
use mymouse.Sensor.{MotionBurst}
use mymouse.Sensor.Motion.{Motion, hid_src_opt_sensor_gpio_cb, fill}
use mymouse.Sensor.Motion.Apart.{IsApart}
use mymouse.Sensor.Motion.Irq.{pending_of}
use mymouse.Sensor.Motion.Steps.{Line, taken, Reach, here, next, received, filled}
use mymouse.Sensor.Motion.Kept.{motion_kept, started}

abbrev valid : 2 < 31
valid = omega arith

abbrev fits : 5 < 32
fits = omega arith

abbrev at_boot : Motion word_event
at_boot = record {
  gpio = record { int_enabled = 0; from_level = 0; callbacks = λ p. none; sense = λ p. no_sense };
  collector = record { event = 0; enabled_sources = 7 };
  sensor = record { delta_x = pos 0; delta_y = pos 0 };
  report = empty;
}

abbrev nothing_else : ℕ → ℕ → Bool → Motion word_event → Motion word_event
nothing_else i p v m = m

nothing_else-IsApart :
    (i p : ℕ) (v : Bool) (m : Motion word_event)
    → IsApart word_event lowest_bit 2 5 valid fits m (nothing_else i p v m)
nothing_else-IsApart i p v m = record {
  enabled_kept = refl;
  level_kept = refl;
  callback_kept = refl;
  sense_kept = refl;
  pending_kept = λ e. e;
}

abbrev burst : MotionBurst
burst = record { motion = 0x88; delta_x_l = 1; delta_y_l = 2; delta_xy_h = 0; surf_qual = 40 }

abbrev low_at_boot : Line word_event lowest_bit 2 5 valid fits nothing_else nothing_else-IsApart
low_at_boot =
    started word_event lowest_bit 2 5 valid fits nothing_else nothing_else-IsApart false at_boot

abbrev event_taken : Line word_event lowest_bit 2 5 valid fits nothing_else nothing_else-IsApart
event_taken = record low_at_boot {
  motion =
      taken word_event lowest_bit 2 5 valid fits nothing_else nothing_else-IsApart 4
        low_at_boot.motion;
  serving = true;
}

abbrev pin_read : Line word_event lowest_bit 2 5 valid fits nothing_else nothing_else-IsApart
pin_read = record event_taken {
  motion = fill word_event lowest_bit (pos 2) 16 burst false event_taken.motion;
  serving = false;
}

one_round :
    Reach word_event lowest_bit 2 5 valid fits nothing_else nothing_else-IsApart low_at_boot
      pin_read
unfolding test_bit
one_round = next (next here (received 4 (omega arith) refl)) (filled 16 burst refl)

motion_kept_example :
    (pending_of word_event lowest_bit 2 5 valid fits nothing_else nothing_else-IsApart
        pin_read.motion
      ≡ 1)
    ⊎ ((pin_read.serving ≡ true)
        ⊎ ((test_bit (interrupts_from 0 pin_read.motion.gpio) 5 ≡ 1)
            × (pin_read.motion.gpio.callbacks 5 ≡ some hid_src_opt_sensor_gpio_cb)
            × (pin_read.motion.gpio.sense 5 ≡ sense_low)))
unfolding test_bit
motion_kept_example =
    motion_kept word_event lowest_bit 2 5 valid fits nothing_else nothing_else-IsApart false at_boot
      pin_read one_round refl 0 refl
