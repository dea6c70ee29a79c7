-- ===== src/ModeButton/Held.antt =====
-- The mouse is turned off only after its mode button was held.
use mymouse.Base.{ℕ, ◌≡◌, Bool, true, false, not, ◌||◌, ◌&&◌, List, [], ◌∷◌, arith}
use mymouse.Base.Int.{ℤ}
use mymouse.ModeButton.{
  ModeButton, LifecycleState, freshly_booted, normal_operation, waiting_for_shutdown, booted,
  gpio_callback, lifecycle_timer_cb, init, Event, press, release, expiry, step, run, is_running,
}

module _ (hold_time : ℕ) where
  -- Every expiry comes while the timer runs.
  abbrev pub IsTimely : List (Event hold_time) → ModeButton → Type 0
  IsTimely [] m = Unit {0}
  IsTimely (press ∷ es) m = IsTimely es (step hold_time press m)
  IsTimely (release ∷ es) m = IsTimely es (step hold_time release m)
  IsTimely (expiry ∷ es) m = (is_running m.timer ≡ true) × IsTimely es (step hold_time expiry m)

  -- Whether an expiry has come, whether a press came last, and whether another expiry has come right
  -- after a press.
  pub record Seen : Type 0 where
    pub is_started : Bool
    pub is_pressed : Bool
    pub was_held : Bool

  abbrev pub see : Event hold_time → Seen → Seen
  see press s = record s { is_pressed = true }
  see release s = record s { is_pressed = false }
  see expiry s = record {
    is_started = true;
    is_pressed = false;
    was_held = s.was_held || (s.is_started && s.is_pressed);
  }

  abbrev pub see_all : List (Event hold_time) → Seen → Seen
  see_all [] s = s
  see_all (e ∷ es) s = see_all es (see e s)

  abbrev pub nothing_seen : Seen
  nothing_seen = record { is_started = false; is_pressed = false; was_held = false }

  -- In normal operation the timer runs only from a press on.
  abbrev Fits : LifecycleState → ModeButton → Seen → Type 0
  Fits freshly_booted m s = (m.is_shut_down ≡ false) × (s.is_started ≡ false)
  Fits normal_operation m s =
      (m.is_shut_down ≡ false)
      × (s.is_started ≡ true)
      × (is_running m.timer ≡ true → s.is_pressed ≡ true)
  Fits waiting_for_shutdown m s = s.was_held ≡ true

  edge-Fits :
      (level : Bool) (m : ModeButton) (s : Seen)
      → Fits m.lifecycle_state m s
      → Fits
          (gpio_callback hold_time level m).lifecycle_state
          (gpio_callback hold_time level m)
          (record s { is_pressed = not level })
  unfolding gpio_callback
  edge-Fits level m s h = ground (arith, h)

  expiry-Fits :
      (m : ModeButton) (s : Seen)
      → is_running m.timer ≡ true
      → Fits m.lifecycle_state m s
      → Fits (step hold_time expiry m).lifecycle_state (step hold_time expiry m) (see expiry s)
  unfolding lifecycle_timer_cb
  expiry-Fits m s r h = ground (arith, r, h)

  run-Fits :
      (es : List (Event hold_time)) (m : ModeButton) (s : Seen)
      → IsTimely es m
      → Fits m.lifecycle_state m s
      → Fits (run hold_time es m).lifecycle_state (run hold_time es m) (see_all es s)
  run-Fits [] m s t h = h
  run-Fits (press ∷ es) m s t h = run-Fits es _ _ t (edge-Fits false m s h)
  run-Fits (release ∷ es) m s t h = run-Fits es _ _ t (edge-Fits true m s h)
  run-Fits (expiry ∷ es) m s (r, t) h = run-Fits es _ _ t (expiry-Fits m s r h)

  was_held_if :
      (m : ModeButton) (s : Seen)
      → Fits m.lifecycle_state m s
      → m.is_shut_down ≡ true
      → s.was_held ≡ true
  was_held_if m s h d = ground (arith, h, d)

  init-Fits :
      (level : ℤ) (pin : Bool)
      → Fits
          (init hold_time level pin booted).lifecycle_state
          (init hold_time level pin booted)
          nothing_seen
  unfolding init gpio_callback
  init-Fits level pin = ground arith

  -- From a boot on, with any presses and releases of the button and expiries of its timer while it
  -- runs: the mouse shuts down only if the timer expired right after a press, after it had expired
  -- once before.
  pub shut_down-was_held :
      (level : ℤ) (pin : Bool) (es : List (Event hold_time))
      → IsTimely es (init hold_time level pin booted)
      → (run hold_time es (init hold_time level pin booted)).is_shut_down ≡ true
      → (see_all es nothing_seen).was_held ≡ true
  shut_down-was_held level pin es t d =
      let m = init hold_time level pin booted in
      was_held_if (run hold_time es m) (see_all es nothing_seen)
        (run-Fits es m nothing_seen t (init-Fits level pin)) d
