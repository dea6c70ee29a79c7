-- ===== src/Battery/Measure/Late.antt =====
-- Which measurement a round of the thread reports.
use mymouse.Base.{
  ◌≡◌, refl, true, List, [], ◌∷◌, ◌++◌, Option, none, some, ◌==◌, if◌then◌else◌, sym, ◌∙◌,
}
use mathlib.Core.List.{append-nil, append_assoc}
use mymouse.Base.Int.{ℤ, pos, ◌*ℤ◌}
use mymouse.Battery.{battery_charge_level}
use mymouse.Battery.Measure.{
  Conversion, Measure, shift_right, battery_meas_send, adc_irq_handler, measurement_get_mv,
  trigger_measurement, cmd_adc,
}

module _ (scale : ℤ → ℤ) where
  -- The charge level of a result.
  abbrev pub level_of : ℤ → Option ℤ
  level_of result = battery_charge_level (scale (shift_right 14 (result *ℤ pos 3000)))

  -- A round with its own conversion: it ends while the thread waits, or, where the thread does not
  -- wait, right after the round.
  abbrev pub period : Conversion → Measure → Measure
  period c m =
      if m.adc_meas_sem == 0
      then battery_meas_send scale (some c) m
      else adc_irq_handler c (battery_meas_send scale none m)

  abbrev pub periods : List Conversion → Measure → Measure
  periods [] m = m
  periods (c ∷ cs) m = periods cs (period c m)

  abbrev pub results : List Conversion → List (Option ℤ)
  results [] = []
  results (c ∷ cs) = level_of c.result ∷ results cs

  -- All but the last.
  abbrev pub before_last : ℤ → List Conversion → List (Option ℤ)
  before_last r [] = []
  before_last r (c ∷ cs) = level_of r ∷ before_last c.result cs

  period_waited :
      (c : Conversion) (m : Measure)
      → m.meas_rdy_cb_set ≡ true
      → m.adc_meas_sem ≡ 0
      → ((period c m).levels ≡ m.levels ++ level_of c.result ∷ [])
        × ((period c m).adc_meas_sem ≡ 0)
        × ((period c m).meas_rdy_cb_set ≡ true)
  unfolding battery_meas_send measurement_get_mv adc_irq_handler
  period_waited c m h e = rw (e, h) (refl, refl, refl)

  period_stale :
      (c : Conversion) (m : Measure)
      → m.meas_rdy_cb_set ≡ true
      → m.adc_meas_sem ≡ 1
      → ((period c m).levels ≡ m.levels ++ level_of m.result_buffer ∷ [])
        × ((period c m).adc_meas_sem ≡ 1)
        × ((period c m).meas_rdy_cb_set ≡ true)
        × ((period c m).result_buffer ≡ c.result)
  unfolding battery_meas_send measurement_get_mv adc_irq_handler
  period_stale c m h e = rw (e, h) (refl, refl, refl, refl)

  waited_lem :
      (cs : List Conversion) (m : Measure)
      → m.meas_rdy_cb_set ≡ true
      → m.adc_meas_sem ≡ 0
      → (periods cs m).levels ≡ m.levels ++ results cs
  waited_lem [] m h e = sym (append-nil m.levels)
  waited_lem (c ∷ cs) m h e =
      let (l, e', h') = period_waited c m h e in
      waited_lem cs (period c m) h' e'
      ∙ rw l (append_assoc m.levels (level_of c.result ∷ []) (results cs))

  stale_lem :
      (cs : List Conversion) (m : Measure)
      → m.meas_rdy_cb_set ≡ true
      → m.adc_meas_sem ≡ 1
      → (periods cs m).levels ≡ m.levels ++ before_last m.result_buffer cs
  stale_lem [] m h e = sym (append-nil m.levels)
  stale_lem (c ∷ cs) m h e =
      let (l, e', h', r) = period_stale c m h e in
      stale_lem cs (period c m) h' e'
      ∙ rw (l, r) (append_assoc m.levels (level_of m.result_buffer ∷ []) (before_last c.result cs))

  -- As long as no other code triggers a conversion, each round of the thread reports the level of
  -- its own conversion. But if the shell's command adc is run once while no round waits, every later
  -- round reports the conversion before its own, however many rounds follow; the first of them
  -- reports the one of the shell. The callback is set.
  pub periods-cmd_adc :
      (cs : List Conversion) (stray : Conversion) (m : Measure)
      → m.meas_rdy_cb_set ≡ true
      → m.adc_meas_sem ≡ 0
      → ((periods cs m).levels ≡ m.levels ++ results cs)
        × ((periods cs (cmd_adc scale stray m).0).levels ≡ m.levels ++ before_last stray.result cs)
  unfolding cmd_adc adc_irq_handler trigger_measurement
  periods-cmd_adc cs stray m h e = (waited_lem cs m h e, rw h (stale_lem cs _ refl refl))
