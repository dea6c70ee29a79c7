-- ===== src/Platform/Pwm.antt =====
-- app-nrf/src/platform/pwm.c and app-nrf/include/platform/pwm.h: the brightness of the LEDs. The
-- arithmetic of floats is a parameter. A time in milliseconds is not negative, and as cycles it fits
-- an int. What the hardware is told is a part of the state.
pub mod Interpolation
pub mod Integers
pub mod Fade
mod Tests
use Prim.Native.Nat.{bit_or}
use mymouse.Base.Int.{ℤ, pos, ◌-ℤ◌}
use mymouse.Base.{ℕ, zero, suc, ◌+◌, ◌-◌, ◌*◌, ◌/◌, Bool, true, false, ◌&&◌, List, [], ◌∷◌, ◌==◌}

abbrev pub pwm_max_steps : ℕ
pwm_max_steps = 30

abbrev pub freq_khz : ℕ
freq_khz = 10

abbrev pub polarity_high_first : ℕ
polarity_high_first = 0x8000

pub record LedValue : Type 0 where
  pub r : ℕ
  pub g : ℕ

-- `refresh` is how many times more than once each step is repeated, `stop` the shortcut that stops
-- the generator at the end of the sequence, and `done` the event of that end.
pub record Pwm : Type 0 where
  pub steps : List LedValue
  pub last : LedValue
  pub refresh : ℕ
  pub stop : Bool
  pub done : Bool

-- Single-precision floats, with the order of their values.
pub record Float : Type 1 where
  pub F : Type 0
  pub of_int : ℤ → F
  pub div : F → F → F
  pub mul : F → F → F
  pub add : F → F → F
  pub to_uint16 : F → ℕ
  pub Le : F → F → Type 0

module _ (float : Float) where
  open float use {of_int, div, mul, add, to_uint16}

  -- (uint16_t) (from + k * delta), where k is (float) step / (PWM_MAX_STEPS - 1).
  unfoldable pub step_value : ℕ → ℕ → ℕ → ℕ
  step_value from to i =
      let delta = pos to -ℤ pos from in
      let k = div (of_int (pos i)) (of_int (pos (pwm_max_steps - 1))) in
      to_uint16 (add (of_int (pos from)) (mul k (of_int delta)))

  abbrev pub step : LedValue → LedValue → ℕ → LedValue
  step from to i = record {
    r = bit_or polarity_high_first (step_value from.r to.r i);
    g = bit_or polarity_high_first (step_value from.g to.g i);
  }

  -- The next `n` steps from number `i` on.
  unfoldable pub steps_from : ℕ → ℕ → LedValue → LedValue → List LedValue
  steps_from zero i from to = []
  steps_from (suc n) i from to = step from to i ∷ steps_from n (i + 1) from to

  unfoldable pub schedule_sequence : LedValue → LedValue → ℕ → Pwm → Pwm
  unfolding steps_from
  schedule_sequence from to time_ms p = record {
    steps = steps_from pwm_max_steps 0 from to;
    last = to;
    refresh = time_ms * freq_khz / pwm_max_steps - 1;
    stop = (to.r == 0) && (to.g == 0);
    done = false;
  }

  abbrev pub schedule_sequence_from_last : LedValue → ℕ → Pwm → Pwm
  schedule_sequence_from_last to time_ms p = schedule_sequence p.last to time_ms p

  abbrev pub schedule_sequence_from_zero : LedValue → ℕ → Pwm → Pwm
  schedule_sequence_from_zero to time_ms p =
      schedule_sequence (record { r = 0; g = 0 }) to time_ms p

abbrev pub sequence_done : Pwm → Bool
sequence_done p = p.done
