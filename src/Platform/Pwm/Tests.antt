-- ===== src/Platform/Pwm/Tests.antt =====
-- A fade to red and one to dark after it, on floats that cut off every fraction.
use mymouse.Base.{ℕ, ◌+◌, ◌*◌, ◌≤◌, ◌<◌, ◌≡◌, false, [], ◌∷◌, length, get_or, arith}
use mymouse.Platform.Pwm.{LedValue, Pwm}
use mymouse.Platform.Pwm.Integers.{integers, integers-IsIeee}
use mymouse.Platform.Pwm.Fade.{IsLed, shown, dark, fade, fade-steps}

abbrev red : LedValue
red = record { r = 80; g = 0 }

abbrev off : Pwm
off = record { steps = []; last = dark; refresh = 0; stop = false; done = false }

red-IsLed : IsLed red
red-IsLed = record { r_fits = omega arith; g_fits = omega arith }

dark-IsLed : IsLed dark
dark-IsLed = record { r_fits = omega arith; g_fits = omega arith }

fade-steps_example :
    let p' = fade integers integers-IsIeee ((red, 300) ∷ (dark, 100) ∷ []) off in
    (length p'.steps ≡ 30)
    × (get_or p'.steps 0 dark ≡ record { r = 0x8050; g = 0x8000 })
    × (get_or p'.steps 29 dark ≡ record { r = 0x8000; g = 0x8000 })
    × ((i : ℕ)
        → i < 30
        → (v : LedValue) × (get_or p'.steps i dark ≡ shown v)
          × (0 ≤ v.r)
          × (v.r ≤ 80)
          × (0 ≤ v.g)
          × (v.g ≤ 0))
    × (30 * (p'.refresh + 1) ≤ 1000)
    × (1000 < 30 * (p'.refresh + 1) + 30)
fade-steps_example =
    fade-steps integers integers-IsIeee ((red, 300) ∷ []) dark 100 off red-IsLed dark-IsLed
      (omega arith) (omega arith)
