-- ===== src/Sensor/Tests.antt =====
-- The theorem on the optical sensor at a concrete burst.
use mymouse.Base.{◌≡◌, refl, true, arith}
use mymouse.Base.Int.{pos}
use mymouse.Base.Bits.{test_bit}
use mymouse.Hid.Report.{empty}
use mymouse.Sensor.{MotionBurst, report_filler}
use mymouse.Sensor.Laws.{IsBurst, HasMotion, report_filler-counts}

-- 3 counts to the left and 2 up.
abbrev burst : MotionBurst
burst = record {
  motion = 0x88;
  delta_x_l = 0xFD;
  delta_y_l = 0x02;
  delta_xy_h = 0xF0;
  surf_qual = 40;
}

burst-IsBurst : IsBurst burst
burst-IsBurst = record { x_fits = omega arith; y_fits = omega arith; xy_fits = omega arith }

burst-HasMotion : HasMotion 16 burst
unfolding test_bit
burst-HasMotion = record { no_fault = refl; configured = refl; moved = refl; surface = omega arith }

report_filler-counts_example :
    (report_filler 16 burst true (record { delta_x = pos 0; delta_y = pos 0 }) empty).1
    ≡ record empty { x_delta = 0xFFD; y_delta = 0xFFE }
report_filler-counts_example =
    report_filler-counts 16 burst true (record { delta_x = pos 0; delta_y = pos 0 }) empty
      burst-IsBurst burst-HasMotion
