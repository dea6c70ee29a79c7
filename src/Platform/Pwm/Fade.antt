-- ===== src/Platform/Pwm/Fade.antt =====
-- A sequence begins where the last one ended, goes to its target, and takes its time.
use Prim.Native.Nat.{bit_or}
use mymouse.Base.{
  ℕ, zero, suc, ◌+◌, ◌*◌, ◌^◌, ◌≤◌, ◌<◌, ◌≡◌, refl, ◌∙◌, ap, List, [], ◌∷◌, ◌++◌, length, get_or,
  min, max, arith,
}
use mymouse.Platform.Pwm.Interpolation.{
  IsIeee, step_value-between, step_value-first, step_value-last,
}
use mymouse.Platform.Pwm.{
  Float, step_value, LedValue, Pwm, step, steps_from, schedule_sequence,
  schedule_sequence_from_last,
}

-- Both numbers are 16-bit words.
pub record IsLed (v : LedValue) : Type 0 where
  pub r_fits : v.r < 2 ^ 16
  pub g_fits : v.g < 2 ^ 16

-- The value with the bit of the polarity.
abbrev pub shown : LedValue → LedValue
shown v = record { r = bit_or 0x8000 v.r; g = bit_or 0x8000 v.g }

abbrev pub dark : LedValue
dark = record { r = 0; g = 0 }

module _ (float : Float) (ieee : IsIeee float) where
  -- The calls that fade from the last value, in order.
  abbrev pub fade : List (LedValue × ℕ) → Pwm → Pwm
  fade [] p = p
  fade ((to, time_ms) ∷ calls) p = fade calls (schedule_sequence_from_last float to time_ms p)

  abbrev pub last_target : LedValue → List (LedValue × ℕ) → LedValue
  last_target v [] = v
  last_target v ((to, time_ms) ∷ calls) = last_target to calls

  steps_from-get_or :
      (n i j : ℕ) (from to : LedValue)
      → j < n
      → get_or (steps_from float n i from to) j dark ≡ step float from to (i + j)
  unfolding steps_from
  steps_from-get_or zero i j from to h = absurd (omega arith)
  steps_from-get_or (suc n) i zero from to h = ap (λ (k : ℕ). step float from to k) (omega arith)
  steps_from-get_or (suc n) i (suc j) from to h =
      steps_from-get_or n (i + 1) j from to (omega arith)
      ∙ ap (λ (k : ℕ). step float from to k) (omega arith)

  fade-append :
      (calls : List (LedValue × ℕ)) (to : LedValue) (time_ms : ℕ) (p : Pwm)
      → fade (calls ++ (to, time_ms) ∷ []) p
        ≡ schedule_sequence float (last_target p.last calls) to time_ms (fade calls p)
  unfolding schedule_sequence
  fade-append [] to time_ms p = refl
  fade-append ((v, ms) ∷ calls) to time_ms p =
      fade-append calls to time_ms (schedule_sequence_from_last float v ms p)

  length-steps_from : (n i : ℕ) (from to : LedValue) → length (steps_from float n i from to) ≡ n
  unfolding steps_from
  length-steps_from zero i from to = refl
  length-steps_from (suc n) i from to = omega (arith, length-steps_from n (i + 1) from to)

  step-shown :
      (from to : LedValue) (i : ℕ)
      → IsLed from
      → IsLed to
      → i < 30
      → (v : LedValue) × (step float from to i ≡ shown v)
        × (min from.r to.r ≤ v.r)
        × (v.r ≤ max from.r to.r)
        × (min from.g to.g ≤ v.g)
        × (v.g ≤ max from.g to.g)
  step-shown from to i h k l =
      let (a, b) = step_value-between float ieee from.r to.r h.r_fits k.r_fits i l in
      let (c, d) = step_value-between float ieee from.g to.g h.g_fits k.g_fits i l in
      (
        record { r = step_value float from.r to.r i; g = step_value float from.g to.g i },
        refl,
        a,
        b,
        c,
        d,
      )

  -- However many fades from the last value come one after another, the last of them begins with the
  -- target of the one before it, ends with its own target, and shows only values between the two;
  -- and its 30 steps take the time that was asked for, or less by less than one duty cycle for each
  -- step. The time is at least one duty cycle for each step, 3 ms, and in cycles it fits an int, the
  -- values are 16-bit words, and the floats obey the laws of IEEE 754.
  pub fade-steps :
      (calls : List (LedValue × ℕ)) (to : LedValue) (time_ms : ℕ) (p : Pwm)
      → IsLed (last_target p.last calls)
      → IsLed to
      → 3 ≤ time_ms
      → time_ms * 10 < 2 ^ 31
      → let from = last_target p.last calls in
        let p' = fade (calls ++ (to, time_ms) ∷ []) p in
        (length p'.steps ≡ 30)
        × (get_or p'.steps 0 dark ≡ shown from)
        × (get_or p'.steps 29 dark ≡ shown to)
        × ((i : ℕ)
            → i < 30
            → (v : LedValue) × (get_or p'.steps i dark ≡ shown v)
              × (min from.r to.r ≤ v.r)
              × (v.r ≤ max from.r to.r)
              × (min from.g to.g ≤ v.g)
              × (v.g ≤ max from.g to.g))
        × (30 * (p'.refresh + 1) ≤ time_ms * 10)
        × (time_ms * 10 < 30 * (p'.refresh + 1) + 30)
  unfolding schedule_sequence
  fade-steps calls to time_ms p h k t fits =
      let from = last_target p.last calls in
      let at : (j : ℕ)
          → j < 30
          → get_or (steps_from float 30 0 from to) j dark ≡ step float from to j =
        λ j l.
          steps_from-get_or 30 0 j from to l ∙ ap (λ (m : ℕ). step float from to m) (omega arith) in
      rw (fade-append calls to time_ms p) (
        length-steps_from 30 0 from to,
        at 0 (omega arith)
            ∙ rw
                (
                  step_value-first float ieee from.r to.r h.r_fits k.r_fits,
                  step_value-first float ieee from.g to.g h.g_fits k.g_fits,
                )
                refl,
        at 29 (omega arith)
            ∙ rw
                (
                  step_value-last float ieee from.r to.r h.r_fits k.r_fits,
                  step_value-last float ieee from.g to.g h.g_fits k.g_fits,
                )
                refl,
        λ i l. let (v, e, a, b, c, d) = step-shown from to i h k l in (v, at i l ∙ e, a, b, c, d),
        omega (arith, t),
        omega (arith, t),
      )
