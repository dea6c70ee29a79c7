-- ===== src/Sensor.antt =====
-- The optical sensor: `adns7530_sample_fetch` and `adns7530_channel_get` of
-- app-nrf/src/drivers/adns7530.c, and app-nrf/src/services/hid/source/opt_sensor.c. The bytes of
-- the motion burst are an argument: they are 0 if the transfer failed, as the code sets them before.
pub mod Laws
pub mod Transfer
pub mod Bus
pub mod Motion
mod Tests
mod BusTests
use Prim.Native.Nat.{bit_and, bit_or}
use mymouse.Base.{
  ℕ, ◌+◌, ◌*◌, ◌/◌, ◌^◌, Bool, true, false, not, ◌||◌, ◌==◌, ltb, if◌then◌else◌, Ret, ok, err,
  enodata,
}
use mymouse.Base.Int.{ℤ, pos, sub_ℕ, neg, wrap}
use mymouse.Bitmask.{bit_as_bool}
use mymouse.Hid.Report.{Report}

pub record MotionBurst : Type 0 where
  pub motion : ℕ
  pub delta_x_l : ℕ
  pub delta_y_l : ℕ
  pub delta_xy_h : ℕ
  pub surf_qual : ℕ

pub record SensorData : Type 0 where
  pub delta_x : ℤ
  pub delta_y : ℤ

-- A 12-bit number with its sign.
unfoldable pub sign_12 : ℕ → ℤ
sign_12 v = if v / 2 ^ 11 == 0 then pos v else sub_ℕ (bit_and v 0x7FF) 0x800

module _ (surf_qual_threshold : ℕ) where
  unfoldable pub sample_fetch : MotionBurst → SensorData → SensorData × Ret
  sample_fetch burst old =
      if bit_as_bool burst.motion 2 || not (bit_as_bool burst.motion 3)
      then (old, err enodata)
      else (if not (bit_as_bool burst.motion 7) || ltb burst.surf_qual surf_qual_threshold
          then (record { delta_x = pos 0; delta_y = pos 0 }, ok 0)
          else (
            record {
              delta_x = sign_12 (bit_or burst.delta_x_l (bit_and burst.delta_xy_h 0xF0 * 2 ^ 4));
              delta_y = sign_12 (bit_or burst.delta_y_l (bit_and burst.delta_xy_h 0x0F * 2 ^ 8));
            },
            ok 0,
          ))

  -- The filler reads the sensor, and asks to be run again while the motion pin is low.
  unfoldable pub report_filler :
      MotionBurst → Bool → SensorData → Report → SensorData × Report × Bool
  report_filler burst mot_pin old report =
      let new = (sample_fetch burst old).0 in
      (
        new,
        record report { x_delta = wrap 12 new.delta_x; y_delta = wrap 12 (neg new.delta_y) },
        not mot_pin,
      )
