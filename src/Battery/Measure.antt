-- ===== src/Battery/Measure.antt =====
-- The measurement of the battery: app-nrf/src/platform/adc.c and the thread of
-- app-nrf/src/services/battery.c. The multiplication by the float ratio of the resistors is the
-- parameter `scale`, from millivolts at the pin to millivolts of the battery. A conversion that has
-- ended, with its result and the time, is an event; so is a trigger of other code (the mode button's
-- service and the shell have one).
pub mod Late
mod Tests
use mymouse.Base.{
  ℕ, ◌-◌, ◌*◌, ◌/◌, ◌^◌, Bool, true, false, List, ◌++◌, [], ◌∷◌, Option, none, some, ◌==◌,
  if◌then◌else◌,
}
use mymouse.Base.Int.{ℤ, pos, negsuc, ◌*ℤ◌}
use mymouse.Battery.{battery_charge_level}

-- `>>` of an `int`, which rounds down.
abbrev pub shift_right : ℕ → ℤ → ℤ
shift_right k (pos n) = pos (n / 2 ^ k)
shift_right k (negsuc n) = negsuc (n / 2 ^ k)

-- A conversion that has ended.
pub record Conversion : Type 0 where
  pub result : ℤ
  pub uptime_ms : ℕ

pub record Measure : Type 0 where
  pub saadc_enabled : Bool
  pub result_buffer : ℤ
  pub meas_rdy_cb_set : Bool
  pub adc_meas_sem : ℕ
  pub latest_meas_time_ms : ℤ
  pub levels : List (Option ℤ)  -- the calls of upd_bat_lvl

abbrev pub initial : Measure
initial = record {
  saadc_enabled = false;
  result_buffer = pos 0;
  meas_rdy_cb_set = false;
  adc_meas_sem = 0;
  latest_meas_time_ms = negsuc 0;
  levels = [];
}

abbrev pub set_measurement_ready_cb : Measure → Measure
set_measurement_ready_cb m = record m { meas_rdy_cb_set = true }

unfoldable pub trigger_measurement : Measure → Measure
trigger_measurement m = record m { saadc_enabled = true }

-- The semaphore counts to 1.
unfoldable pub adc_meas_ready : ℕ → Measure → Measure
adc_meas_ready uptime_ms m = record m { latest_meas_time_ms = pos uptime_ms; adc_meas_sem = 1 }

-- The interrupt of a conversion that has ended.
unfoldable pub adc_irq_handler : Conversion → Measure → Measure
unfolding adc_meas_ready
adc_irq_handler c m =
    let stopped = record m { result_buffer = c.result; saadc_enabled = false } in
    if m.meas_rdy_cb_set then adc_meas_ready c.uptime_ms stopped else stopped

module _ (scale : ℤ → ℤ) where
  unfoldable pub measurement_get_mv : Measure → ℤ
  measurement_get_mv m = scale (shift_right 14 (m.result_buffer *ℤ pos 3000))

  abbrev pub upd_bat_lvl : Measure → Measure
  upd_bat_lvl m = record m { levels = m.levels ++ battery_charge_level (measurement_get_mv m) ∷ [] }

  abbrev pub take_and_send : Measure → Measure
  take_and_send m = upd_bat_lvl (record m { adc_meas_sem = 0 })

  -- A round of the thread. The conversion is the one that ends while the thread waits on the
  -- semaphore, if one ends in time; the thread does not wait if the semaphore is given already.
  unfoldable pub battery_meas_send : Option Conversion → Measure → Measure
  unfolding adc_irq_handler trigger_measurement
  battery_meas_send ended m =
      let triggered = trigger_measurement m in
      if triggered.adc_meas_sem == 0
      then (elim ended [
        | none ↦ triggered
        | some c ↦
            let ready = adc_irq_handler c triggered in
            if ready.adc_meas_sem == 0 then ready else take_and_send ready
      ])
      else take_and_send triggered

  -- The command `platform adc` of app-nrf/src/shell/platform.c, whose wait is long enough for the
  -- conversion to end, with the voltage that it prints.
  unfoldable pub cmd_adc : Conversion → Measure → Measure × ℤ
  unfolding adc_irq_handler trigger_measurement measurement_get_mv
  cmd_adc c m = let m' = adc_irq_handler c (trigger_measurement m) in (m', measurement_get_mv m')
