-- ===== src/ModeButton/Tests.antt =====
-- The mouse is turned on, and off again.
use mymouse.Base.{ℕ, suc, get_or, ◌≡◌, refl, true, false, List, [], ◌∷◌}
use mymouse.Base.Int.{pos, ◌-ℤ◌, ◌*ℤ◌}
use mymouse.Platform.Pwm.{Pwm}
use mymouse.Platform.Pwm.Integers.{integers, integers-IsIeee}
use mymouse.Platform.Pwm.Fade.{shown}
use mymouse.ModeButton.Led.{leds, faded, shown_after, run-faded}
use mymouse.ModeButton.{
  Action, dark, booted, init, led_colour, gpio_callback, lifecycle_timer_cb, Event, press, release,
  expiry, run, normal_operation,
}
use mymouse.ModeButton.Held.{IsTimely, see_all, nothing_seen, shut_down-was_held}

-- The button is let go after the boot, clicked later, and then held.
abbrev events : List (Event 1500)
events = release ∷ expiry ∷ press ∷ release ∷ press ∷ expiry ∷ release ∷ expiry ∷ []

click :
    (run 1500
      (release ∷ expiry ∷ press ∷ release ∷ [])
      (init 1500 (pos 80) false booted)).lifecycle_state
    ≡ normal_operation
unfolding init led_colour gpio_callback lifecycle_timer_cb ◌-ℤ◌ ◌*ℤ◌
click = refl

events-IsTimely : IsTimely 1500 events (init 1500 (pos 80) false booted)
unfolding init led_colour gpio_callback lifecycle_timer_cb ◌-ℤ◌ ◌*ℤ◌
events-IsTimely = (refl, (refl, (refl, tt)))

is_off : (run 1500 events (init 1500 (pos 80) false booted)).is_shut_down ≡ true
unfolding init led_colour gpio_callback lifecycle_timer_cb ◌-ℤ◌ ◌*ℤ◌
is_off = refl

shut_down-was_held_example : (see_all 1500 events (nothing_seen 1500)).was_held ≡ true
shut_down-was_held_example = shut_down-was_held 1500 (pos 80) false events events-IsTimely is_off

abbrev off : Pwm
off = record { steps = []; last = dark; refresh = 0; stop = false; done = false }

run-faded_example :
    let m = run 1500 events (init 1500 (pos 80) false booted) in
    let p' = leds integers integers-IsIeee m.actions off in
    (k : ℕ) × (older : List Action) × (m.actions ≡ faded (suc k) older)
    × (get_or p'.steps 0 dark ≡ shown (shown_after k))
    × (get_or p'.steps 29 dark ≡ record { r = 0x8000; g = 0x8000 })
    × (p'.stop ≡ true)
run-faded_example = run-faded integers integers-IsIeee 1500 off (pos 80) false events is_off
