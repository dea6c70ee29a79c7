-- ===== src/ModeButton.antt =====
-- app-nrf/src/services/button_mode.c: the mode button, which turns the mouse off when it is held. The
-- level of its pin is high when it is released. What the code asks of the LED and of the debounce
-- service is listed in the state, the newest first; the timer is `none` while it is stopped, and else
-- the milliseconds that it was started with.
pub mod Held
pub mod Led
mod Tests
use mymouse.Base.{
  ℕ, ◌+◌, ◌-◌, ◌*◌, Bool, true, false, not, List, [], ◌∷◌, Option, none, some, if◌then◌else◌,
}
use mymouse.Platform.Pwm.{LedValue}
use mymouse.Base.Int.{ℤ, pos, ltb_ℤ, ◌-ℤ◌, ◌*ℤ◌, wrap}

abbrev pub short_fade_ms : ℕ
short_fade_ms = 60

abbrev pub long_fade_ms : ℕ
long_fade_ms = 500

pub data LifecycleState : Type 0 where
  freshly_booted normal_operation waiting_for_shutdown : LifecycleState

pub data Action : Type 0 where
  sequence_from_last : LedValue → ℕ → Action
  sequence_from_zero : LedValue → ℕ → Action
  debounce_set_edge_cb : Action
  trigger_measurement : Action

abbrev pub dark : LedValue
dark = record { r = 0; g = 0 }

pub record ModeButton : Type 0 where
  pub lifecycle_state : LifecycleState
  pub timer : Option ℕ
  pub is_shut_down : Bool
  pub actions : List Action

abbrev pub booted : ModeButton
booted = record {
  lifecycle_state = freshly_booted;
  timer = none;
  is_shut_down = false;
  actions = [];
}

abbrev pub act : Action → ModeButton → ModeButton
act a m = record m { actions = a ∷ m.actions }

-- The timer has expired, and is stopped since its period is K_FOREVER.
unfoldable pub lifecycle_timer_cb : ModeButton → ModeButton
lifecycle_timer_cb m = elim (m.lifecycle_state) [
  | freshly_booted ↦
      act (sequence_from_last dark long_fade_ms) (record m { lifecycle_state = normal_operation })
  | normal_operation ↦
      act (sequence_from_zero (record { r = 80; g = 0 }) short_fade_ms)
        (record m { lifecycle_state = waiting_for_shutdown })
  | waiting_for_shutdown ↦ record m { is_shut_down = true }
]

abbrev pub is_running : Option ℕ → Bool
is_running none = false
is_running (some ms) = true

-- CONFIG_POWER_ON_OFF_HOLD_TIME in milliseconds.
module _ (hold_time : ℕ) where
  unfoldable pub gpio_callback : Bool → ModeButton → ModeButton
  gpio_callback new_value m = act debounce_set_edge_cb (elim (m.lifecycle_state) [
    | freshly_booted ↦
        if new_value then (if is_running m.timer then m else record m { timer = some 3000 }) else m
    | normal_operation ↦
        if not new_value then (record m { timer = some hold_time }) else record m { timer = none }
    | waiting_for_shutdown ↦
        act (sequence_from_last dark short_fade_ms) (record m { timer = some short_fade_ms })
  ])

  -- The colour of the LED for a charge level, in 16-bit fields.
  unfoldable pub led_colour : ℤ → LedValue
  led_colour level =
      if ltb_ℤ (pos 50) level
      then (record { r = wrap 16 ((pos 100 -ℤ level) *ℤ pos 2); g = 99 })
      else (record { r = 99; g = wrap 16 (level *ℤ pos 2) })

  unfoldable pub init : ℤ → Bool → ModeButton → ModeButton
  init level pin m =
      gpio_callback pin
        (act (sequence_from_zero (led_colour level) short_fade_ms) (act trigger_measurement m))

  -- What happens to the button: the debounced edges, and the expiry of the timer if it runs.
  pub data Event : Type 0 where
    press release expiry : Event

  abbrev pub step : Event → ModeButton → ModeButton
  step press m = gpio_callback false m
  step release m = gpio_callback true m
  step expiry m = if is_running m.timer then lifecycle_timer_cb (record m { timer = none }) else m

  abbrev pub run : List Event → ModeButton → ModeButton
  run [] m = m
  run (e ∷ es) m = run es (step e m)
