-- ===== src/Sensor/Motion/Steps.antt =====
-- The steps that the motion pin, the interrupt handler and the collector's thread make, in any order.
use mymouse.Base.{ℕ, ◌^◌, ◌<◌, ◌≡◌, Bool, false, not, ◌||◌, some}
use mymouse.Base.Int.{pos}
use mymouse.Bitmask.{Ffs, bit_as_bool}
use mymouse.Hid.Collector.{KEvent}
use mymouse.Platform.Gpio.{irq_handler, interrupts_from}
use mymouse.Sensor.{MotionBurst}
use mymouse.Sensor.Motion.{Motion, with_gpio, call, fill}
use mymouse.Sensor.Motion.Apart.{IsApart}

module _ (kernel : KEvent) (ffs : Ffs) (source mot_pin : ℕ) (valid : source < 31)
    (fits : mot_pin < 32) (others : ℕ → ℕ → Bool → Motion kernel → Motion kernel)
    (apart : (i p : ℕ) (v : Bool) (m : Motion kernel)
      → IsApart kernel ffs source mot_pin valid fits m (others i p v m)) where
  open kernel use {set_masked}

  -- The state, the level of the pin, and whether the thread has taken the source's event and its
  -- filler has not read the pin yet.
  pub record Line : Type 0 where
    pub motion : Motion kernel
    pub level : Bool
    pub serving : Bool

  abbrev pub taken : ℕ → Motion kernel → Motion kernel
  taken events m = record m {
    collector = record (m.collector) { event = set_masked m.collector.event 0 events };
  }

  -- The steps, in any order. The pin does not change while its interrupt is due, which is shorter
  -- than the sensor's transfers; the interrupt handler reads the port; the thread takes events; the
  -- filler reads the pin; and other code runs, which leaves the pin and the event.
  pub data Step (s t : Line) : Type 0 where
    toggled :
        bit_as_bool s.motion.gpio.from_level mot_pin ≡ s.level
        → t ≡ record s { level = not s.level }
        → Step s t
    interrupted :
        (levels : ℕ) (m : Motion kernel)
        → interrupts_from levels s.motion.gpio < 2 ^ 32
        → bit_as_bool levels mot_pin ≡ s.level
        → irq_handler
            (λ w. w.gpio)
            (with_gpio kernel)
            (call kernel ffs (pos source) others)
            ffs
            levels
            s.motion
          ≡ some m
        → t ≡ record s { motion = m }
        → Step s t
    received :
        (events : ℕ)
        → events < 2 ^ 32
        → t ≡ record s {
          motion = taken events s.motion;
          serving = bit_as_bool events source || s.serving;
        }
        → Step s t
    filled :
        (threshold : ℕ) (burst : MotionBurst)
        → t ≡ record s {
          motion = fill kernel ffs (pos source) threshold burst s.level s.motion;
          serving = false;
        }
        → Step s t
    elsewhere :
        (m : Motion kernel)
        → IsApart kernel ffs source mot_pin valid fits s.motion m
        → t ≡ record s { motion = m }
        → Step s t

  pub data Reach (s : Line) : Line → Type 0 where
    here : Reach s s
    next : {t u : Line} → Reach s t → Step t u → Reach s u
