-- ===== src/Battery.antt =====
-- app-nrf/src/services/battery.c: the charge level. The voltage that `adc_measurement_get_mv` gives
-- is an argument. `none` is a read past the end of the curve.
pub mod Laws
pub mod Measure
mod Tests
use mymouse.Base.{ℕ, ◌-◌, ◌/◌, Bool, not, List, [], ◌∷◌, Option, none, some, ltb, if◌then◌else◌}
use mymouse.Base.Int.{ℤ, pos, ltb_ℤ, ◌+ℤ◌, ◌-ℤ◌, ◌*ℤ◌, quot}

-- In 0.01 % and mV.
pub record BatteryLevelPoint : Type 0 where
  pub points : ℕ
  pub voltage : ℕ

abbrev pub point : ℕ → ℕ → BatteryLevelPoint
point p v = record { points = p; voltage = v }

abbrev pub highest : BatteryLevelPoint
highest = point 10000 3950

abbrev pub bat_capacity_curve : List BatteryLevelPoint
bat_capacity_curve = highest ∷ point 625 3550 ∷ point 0 3100 ∷ []

-- Between `pa` and `pb`. The voltages of the curve descend.
unfoldable pub interpolate : BatteryLevelPoint → BatteryLevelPoint → ℤ → ℤ
interpolate pa pb millivolts =
    let rise = (pos pa.points -ℤ pos pb.points) *ℤ (millivolts -ℤ pos pb.voltage) in
    quot (pos pb.points +ℤ quot rise (pa.voltage - pb.voltage)) 100

-- The loop, with `pa` the point before the list.
unfoldable pub find_bound : ℤ → BatteryLevelPoint → List BatteryLevelPoint → Option ℤ
find_bound millivolts pa [] = none
find_bound millivolts pa (pb ∷ pbs) =
    let next = find_bound millivolts pb pbs in
    if ltb_ℤ millivolts (pos pb.voltage)
    then (if ltb 0 pb.points then next else some (pos (pb.points / 100)))
    else some (interpolate pa pb millivolts)

unfoldable pub battery_charge_level : ℤ → Option ℤ
battery_charge_level millivolts =
    if not (ltb_ℤ millivolts (pos highest.voltage))
    then some (pos (highest.points / 100))
    else find_bound millivolts highest bat_capacity_curve
