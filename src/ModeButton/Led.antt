-- ===== src/ModeButton/Led.antt =====
-- The mode button and the LEDs together: app-nrf/src/services/button_mode.c calls
-- app-nrf/src/platform/pwm.c.
use mathlib.Core.Path.{subst}
use mymouse.Base.{
  sym, ◌∙◌, some, ◌-◌, inl, inr, Bool-cases, ℕ, zero, suc, ◌≡◌, ◌≤◌, refl, ap, Bool, true, false,
  ◌||◌, List, [], ◌∷◌, arith, get_or,
}
use mymouse.Base.Int.{ℤ}
use mymouse.Platform.Pwm.{
  Float, LedValue, Pwm, schedule_sequence, schedule_sequence_from_last, schedule_sequence_from_zero,
}
use mymouse.Platform.Pwm.Interpolation.{IsIeee}
use mymouse.Platform.Pwm.Fade.{IsLed, shown, fade-steps}
use mymouse.ModeButton.{
  ModeButton, Action, sequence_from_last, sequence_from_zero, debounce_set_edge_cb,
  trigger_measurement, LifecycleState, freshly_booted, normal_operation, waiting_for_shutdown,
  booted, dark, gpio_callback, lifecycle_timer_cb, init, Event, press, release, expiry, step, run,
  is_running,
}

abbrev pub red : LedValue
red = record { r = 80; g = 0 }

-- `k` edges of the button while the shutdown is due, after the red flash, which comes after `older`;
-- the newest first.
abbrev pub faded : ℕ → List Action → List Action
faded zero older = sequence_from_zero red 60 ∷ older
faded (suc k) older = debounce_set_edge_cb ∷ sequence_from_last dark 60 ∷ faded k older

-- While the shutdown is due, red was flashed, and nothing but fades to dark came after it; the timer
-- runs only after one of them.
abbrev Fits : LifecycleState → ModeButton → Type 0
Fits freshly_booted m = m.is_shut_down ≡ false
Fits normal_operation m = m.is_shut_down ≡ false
Fits waiting_for_shutdown m =
    (k : ℕ) × (older : List Action) × (m.actions ≡ faded k older)
    × ((is_running m.timer || m.is_shut_down) ≡ true → 1 ≤ k)

waits :
    (m : ModeButton)
    → m.lifecycle_state ≡ waiting_for_shutdown
    → Fits waiting_for_shutdown m
    → Fits m.lifecycle_state m
waits m s h = subst (λ st. Fits st m) (sym s) h

-- After an edge while the shutdown is due.
abbrev gpio_waiting : ModeButton → ModeButton
gpio_waiting m = record m {
  timer = some 60;
  actions = debounce_set_edge_cb ∷ sequence_from_last dark 60 ∷ m.actions;
}

module _ (hold_time : ℕ) where
  edge-Fits :
      (level : Bool) (state : LifecycleState) (m : ModeButton)
      → m.lifecycle_state ≡ state
      → Fits state m
      → Fits (gpio_callback hold_time level m).lifecycle_state (gpio_callback hold_time level m)
  unfolding gpio_callback
  edge-Fits level freshly_booted m s h = ground (arith, h, s)
  edge-Fits level normal_operation m s h = ground (arith, h, s)
  edge-Fits level waiting_for_shutdown m s (k, older, e, l) = rw s (
      waits (gpio_waiting m) s (
        suc k,
        older,
        ap (λ as_before. debounce_set_edge_cb ∷ sequence_from_last dark 60 ∷ as_before) e,
        λ q. omega arith,
      ))

  expiry-Fits :
      (state : LifecycleState) (m : ModeButton)
      → m.lifecycle_state ≡ state
      → Fits state m
      → Fits (step hold_time expiry m).lifecycle_state (step hold_time expiry m)
  unfolding lifecycle_timer_cb
  expiry-Fits freshly_booted m s h = elim (Bool-cases (is_running m.timer)) [
    | inl r ↦ rw (r, s) h
    | inr r ↦ rw r (subst (λ st. Fits st m) (sym s) h)
  ]
  expiry-Fits normal_operation m s h = elim (Bool-cases (is_running m.timer)) [
    | inl r ↦ rw (r, s) (0, m.actions, refl, λ q. absurd (ground (arith, h, q)))
    | inr r ↦ rw r (subst (λ st. Fits st m) (sym s) h)
  ]
  expiry-Fits waiting_for_shutdown m s (k, older, e, l) = elim (Bool-cases (is_running m.timer)) [
    | inl r ↦ rw (r, s) (k, older, e, λ q. l (rw r refl))
    | inr r ↦ rw r (waits m s (k, older, e, l))
  ]

  run-Fits :
      (es : List (Event hold_time)) (m : ModeButton)
      → Fits m.lifecycle_state m
      → Fits (run hold_time es m).lifecycle_state (run hold_time es m)
  run-Fits [] m h = h
  run-Fits (press ∷ es) m h = run-Fits es _ (edge-Fits false m.lifecycle_state m refl h)
  run-Fits (release ∷ es) m h = run-Fits es _ (edge-Fits true m.lifecycle_state m refl h)
  run-Fits (expiry ∷ es) m h = run-Fits es _ (expiry-Fits m.lifecycle_state m refl h)

  init-Fits :
      (level : ℤ) (pin : Bool)
      → Fits (init hold_time level pin booted).lifecycle_state (init hold_time level pin booted)
  unfolding init gpio_callback
  init-Fits level pin = ground arith

  -- When the mouse shuts down, red was flashed and only fades to dark came after it, at least one.
  shut_down_faded :
      (state : LifecycleState) (m : ModeButton)
      → Fits state m
      → m.is_shut_down ≡ true
      → (k : ℕ) × (older : List Action) × (m.actions ≡ faded (suc k) older)
  shut_down_faded freshly_booted m h d = absurd (ground (arith, h, d))
  shut_down_faded normal_operation m h d = absurd (ground (arith, h, d))
  shut_down_faded waiting_for_shutdown m (k, older, e, l) d =
      let p : 1 ≤ k = l (rw d (ground arith)) in
      let same : k ≡ suc (k - 1) = omega (arith, p) in
      (k - 1, older, e ∙ ap (λ (n : ℕ). faded n older) same)

-- What the LEDs show last, after `k` fades.
abbrev pub shown_after : ℕ → LedValue
shown_after zero = red
shown_after (suc k) = dark

module _ (float : Float) (ieee : IsIeee float) where
  abbrev apply : Action → Pwm → Pwm
  apply (sequence_from_last v time_ms) p = schedule_sequence_from_last float v time_ms p
  apply (sequence_from_zero v time_ms) p = schedule_sequence_from_zero float v time_ms p
  apply debounce_set_edge_cb p = p
  apply trigger_measurement p = p

  -- The LEDs after the calls of the mode button, which are listed the newest first.
  abbrev pub leds : List Action → Pwm → Pwm
  leds [] p = p
  leds (a ∷ as_before) p = apply a (leds as_before p)

  leds-last :
      (k : ℕ) (older : List Action) (p : Pwm) → (leds (faded k older) p).last ≡ shown_after k
  unfolding schedule_sequence
  leds-last zero older p = refl
  leds-last (suc k) older p = refl

  shown_after-IsLed : (k : ℕ) → IsLed (shown_after k)
  shown_after-IsLed zero = record { r_fits = omega arith; g_fits = omega arith }
  shown_after-IsLed (suc k) = record { r_fits = omega arith; g_fits = omega arith }

  leds-stop : (k : ℕ) (older : List Action) (p : Pwm) → (leds (faded (suc k) older) p).stop ≡ true
  unfolding schedule_sequence
  leds-stop k older p = refl

  -- From a boot on, with any presses and releases of the button and expiries of its timer: when the
  -- mouse shuts down, red was flashed, and after it, nothing but fades to dark was asked of the LEDs,
  -- one or more. The last of them begins with red, or with dark if there was one before it, and ends
  -- dark, and the generator stops at its end. The floats obey the laws of IEEE 754.
  pub run-faded :
      (hold_time : ℕ) (p : Pwm) (level : ℤ) (pin : Bool) (es : List (Event hold_time))
      → let m = run hold_time es (init hold_time level pin booted) in
        m.is_shut_down ≡ true
        → (k : ℕ) × (older : List Action) × (m.actions ≡ faded (suc k) older)
          × (get_or (leds m.actions p).steps 0 dark ≡ shown (shown_after k))
          × (get_or (leds m.actions p).steps 29 dark ≡ shown dark)
          × ((leds m.actions p).stop ≡ true)
  run-faded hold_time p level pin es d =
      let m = init hold_time level pin booted in
      let end = run hold_time es m in
      let (k, older, e) =
        shut_down_faded hold_time end.lifecycle_state end
          (run-Fits hold_time es m (init-Fits hold_time level pin)) d in
      let before = leds (faded k older) p in
      let same = leds-last k older p in
      let fits : IsLed before.last = rw same (shown_after-IsLed k) in
      let (_, first, last, _, _, _) =
        fade-steps float ieee [] dark 60 before fits
          (record { r_fits = omega arith; g_fits = omega arith }) (omega arith) (omega arith) in
      (k, older, e, rw e (first ∙ ap shown same), rw e last, rw e (leds-stop k older p))
