-- ===== src/Battery/Laws.antt =====
-- The charge level stays between 0 and 100 and grows with the voltage.
use mymouse.Base.{ℕ, ◌+◌, ◌-◌, ◌*◌, ◌/◌, ◌≤◌, ◌≡◌, refl, arith, some, ltb, if◌then◌else◌}
use mymouse.Base.Int.{ℤ, pos, negsuc, ◌≤ℤ◌, ◌+ℤ◌, ◌-ℤ◌, ◌*ℤ◌, quot}
use mymouse.Battery.{battery_charge_level, find_bound, interpolate, point}

-- The curve piece by piece.
abbrev pub level : ℤ → ℕ
level (negsuc n) = 0
level (pos n) =
    if ltb n 3100
    then 0
    else (if ltb n 3550
        then 625 * (n - 3100) / 450 / 100
        else (if ltb n 3950 then (625 + 9375 * (n - 3550) / 400) / 100 else 100))

pos-add : (a b : ℕ) → pos a +ℤ pos b ≡ pos (a + b)
unfolding ◌+ℤ◌
pos-add a b = ground arith

pos-sub : (a b : ℕ) → b ≤ a → pos a -ℤ pos b ≡ pos (a - b)
unfolding ◌-ℤ◌
pos-sub a b h = ground arith

pos-mul : (a b : ℕ) → pos a *ℤ pos b ≡ pos (a * b)
unfolding ◌*ℤ◌
pos-mul a b = ground arith

interpolate-pos :
    (pa va pb vb n : ℕ)
    → vb ≤ n
    → pb ≤ pa
    → interpolate (point pa va) (point pb vb) (pos n)
      ≡ pos ((pb + (pa - pb) * (n - vb) / (va - vb)) / 100)
unfolding interpolate quot
interpolate-pos pa va pb vb n h k =
    rw
      (
        pos-sub pa pb k,
        pos-sub n vb h,
        pos-mul (pa - pb) (n - vb),
        pos-add pb ((pa - pb) * (n - vb) / (va - vb)),
      )
      refl

battery_charge_level-pieces : (mv : ℤ) → battery_charge_level mv ≡ some (pos (level mv))
unfolding battery_charge_level find_bound
battery_charge_level-pieces (negsuc n) = ground arith
battery_charge_level-pieces (pos n) =
    ground (arith, interpolate-pos 625 3550 0 3100 n, interpolate-pos 10000 3950 625 3550 n)

level_mono : (a b : ℤ) → a ≤ℤ b → (level a ≤ level b) × (level b ≤ 100)
level_mono (pos m) (pos n) h = ground arith
level_mono (pos m) (negsuc n) h = absurd (omega arith)
level_mono (negsuc m) (pos n) h = ground arith
level_mono (negsuc m) (negsuc n) h = omega arith

-- The charge level is found for every voltage, it is a number from 0 to 100, and it does not fall
-- when the voltage rises.
pub battery_charge_level_mono :
    (a b : ℤ)
    → a ≤ℤ b
    → (la : ℕ) × (lb : ℕ) × (battery_charge_level a ≡ some (pos la))
      × (battery_charge_level b ≡ some (pos lb))
      × (la ≤ lb)
      × (lb ≤ 100)
battery_charge_level_mono a b h = (
  level a,
  level b,
  battery_charge_level-pieces a,
  battery_charge_level-pieces b,
  (level_mono a b h).0,
  (level_mono a b h).1,
)
