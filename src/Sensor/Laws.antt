-- ===== src/Sensor/Laws.antt =====
-- What the report says of the counts of the sensor.
use Prim.Native.Nat.{bit_and, bit_or}
use mymouse.Base.{
  ℕ, ◌+◌, ◌-◌, ◌*◌, ◌/◌, ◌%◌, ◌^◌, ◌<◌, ◌≤◌, ◌≡◌, refl, Bool, arith, ok, if◌then◌else◌, ltb,
}
use mymouse.Base.Bits.{test_bit}
use mymouse.Base.Int.{pos, negsuc, neg, wrap}
use native.Mathlib.Decide.{dec_lt}
use mymouse.Hid.Report.{Report}
use mymouse.Sensor.{MotionBurst, SensorData, sign_12, sample_fetch, report_filler}
use mymouse.Base.Bits.Masks.{bit_and-ones, bit_or-disjoint, bit_and-high, bit_and-low}

-- The bytes of the motion burst are bytes.
pub record IsBurst (b : MotionBurst) : Type 0 where
  pub x_fits : b.delta_x_l < 256
  pub y_fits : b.delta_y_l < 256
  pub xy_fits : b.delta_xy_h < 256

-- The laser is in order, and there is motion over a surface that is good enough.
pub record HasMotion (threshold : ℕ) (b : MotionBurst) : Type 0 where
  pub no_fault : test_bit b.motion 2 ≡ 0
  pub configured : test_bit b.motion 3 ≡ 1
  pub moved : test_bit b.motion 7 ≡ 1
  pub surface : threshold ≤ b.surf_qual

abbrev pub count_x : MotionBurst → ℕ
count_x b = b.delta_x_l + 256 * (b.delta_xy_h / 16)

abbrev pub count_y : MotionBurst → ℕ
count_y b = b.delta_y_l + 256 * (b.delta_xy_h % 16)

signed_value : (v : ℕ) → v < 4096 → sign_12 v ≡ (if ltb v 2048 then pos v else negsuc (4095 - v))
unfolding sign_12
signed_value v h = elim (dec_lt v 2048) [
  | yes l ↦ ground arith
  | no nl ↦
      let e : 1 * 2 ^ 11 + (v - 2048) ≡ v = omega arith in
      let low : bit_and v 0x7FF ≡ v - 2048 = rw e at (bit_and-ones 11 1 (v - 2048) (omega arith)) in
      rw low (ground arith)
]

wrap-sign_12 : (v : ℕ) → v < 4096 → wrap 12 (sign_12 v) ≡ v
wrap-sign_12 v h = rw (signed_value v h) (ground arith)

wrap-neg : (v : ℕ) → v < 4096 → wrap 12 (neg (sign_12 v)) ≡ (4096 - v) % 4096
wrap-neg v h = rw (signed_value v h) (ground arith)

x_bits :
    (b : MotionBurst)
    → IsBurst b
    → bit_or b.delta_x_l (bit_and b.delta_xy_h 0xF0 * 2 ^ 4) ≡ count_x b
x_bits b h =
    let e : bit_and b.delta_xy_h 0xF0 * 2 ^ 4 ≡ b.delta_xy_h / 16 * 2 ^ 8 =
      omega (arith, bit_and-high b.delta_xy_h h.xy_fits) in
    rw (e, bit_or-disjoint 8 b.delta_x_l (b.delta_xy_h / 16) h.x_fits) (omega arith)

y_bits :
    (b : MotionBurst)
    → IsBurst b
    → bit_or b.delta_y_l (bit_and b.delta_xy_h 0x0F * 2 ^ 8) ≡ count_y b
y_bits b h =
    rw (bit_and-low b.delta_xy_h, bit_or-disjoint 8 b.delta_y_l (b.delta_xy_h % 16) h.y_fits)
      (omega arith)

fetched :
    (threshold : ℕ) (b : MotionBurst) (old : SensorData)
    → HasMotion threshold b
    → sample_fetch threshold b old ≡ (
      record {
        delta_x = sign_12 (bit_or b.delta_x_l (bit_and b.delta_xy_h 0xF0 * 2 ^ 4));
        delta_y = sign_12 (bit_or b.delta_y_l (bit_and b.delta_xy_h 0x0F * 2 ^ 8));
      },
      ok 0,
    )
unfolding sample_fetch
fetched threshold b old m = rw (m.no_fault, m.configured, m.moved) (ground (arith, m.surface))

-- The report's 12-bit movement fields hold the counts of the sensor bit for bit, horizontally as
-- they are and vertically negated modulo 4096, if the laser is in order and there is motion over a
-- good surface; the other fields stay.
pub report_filler-counts :
    (threshold : ℕ) (b : MotionBurst) (mot_pin : Bool) (old : SensorData) (report : Report)
    → IsBurst b
    → HasMotion threshold b
    → (report_filler threshold b mot_pin old report).1
      ≡ record report { x_delta = count_x b; y_delta = (4096 - count_y b) % 4096 }
unfolding report_filler
report_filler-counts threshold b mot_pin old report h m =
    rw
      (
        fetched threshold b old m,
        x_bits b h,
        y_bits b h,
        wrap-sign_12 (count_x b) (omega (arith, h.x_fits, h.xy_fits)),
        wrap-neg (count_y b) (omega (arith, h.y_fits, h.xy_fits)),
      )
      refl
