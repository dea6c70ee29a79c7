-- ===== src/Battery/Tests.antt =====
-- The charge level at concrete voltages.
use mymouse.Base.{ℕ, ◌≤◌, ◌≡◌, refl, some, arith}
use mymouse.Base.Int.{pos, quot, ◌+ℤ◌, ◌-ℤ◌, ◌*ℤ◌}
use mymouse.Battery.{battery_charge_level, find_bound, interpolate}
use mymouse.Battery.Laws.{battery_charge_level_mono}

at_3750 : battery_charge_level (pos 3750) ≡ some (pos 53)
unfolding battery_charge_level find_bound interpolate quot ◌+ℤ◌ ◌-ℤ◌ ◌*ℤ◌
at_3750 = refl

battery_charge_level_mono_example :
    (la : ℕ) × (lb : ℕ) × (battery_charge_level (pos 3200) ≡ some (pos la))
    × (battery_charge_level (pos 3750) ≡ some (pos lb))
    × (la ≤ lb)
    × (lb ≤ 100)
battery_charge_level_mono_example = battery_charge_level_mono (pos 3200) (pos 3750) (omega arith)
