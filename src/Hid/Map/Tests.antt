-- ===== src/Hid/Map/Tests.antt =====
-- A report with a left click, a wheel step back and a movement up and to the left, as a host reads it.
use mymouse.Base.{true, ◌≡◌, [], ◌∷◌, some, arith}
use mymouse.Base.Int.{pos, negsuc}
use mymouse.Hid.Report.{Report, IsReport, to_bytes}
use mymouse.Hid.Map.{hid_report_map, hid_report_id}
use mymouse.Hid.Map.Host.{read_report}
use mymouse.Hid.Map.Fields.{read_report-to_bytes}

abbrev clicked : Report
clicked = record {
  left = 1;
  right = 0;
  middle = 0;
  unused = 0;
  wheel_delta = 0xFF;
  x_delta = 0xFFD;
  y_delta = 0x002;
}

clicked-IsReport : IsReport clicked
clicked-IsReport = record {
  left_fits = omega arith;
  right_fits = omega arith;
  middle_fits = omega arith;
  unused_fits = omega arith;
  wheel_fits = omega arith;
  x_fits = omega arith;
  y_fits = omega arith;
}

read_report-to_bytes_example :
    read_report true hid_report_map (hid_report_id ∷ to_bytes clicked)
    ≡ some (
        record { page = 0x09; usage = 1; value = some (pos 1) }
        ∷ record { page = 0x09; usage = 2; value = some (pos 0) }
        ∷ record { page = 0x09; usage = 3; value = some (pos 0) }
        ∷ record { page = 0x01; usage = 0x38; value = some (negsuc 0) }
        ∷ record { page = 0x01; usage = 0x30; value = some (negsuc 2) }
        ∷ record { page = 0x01; usage = 0x31; value = some (pos 2) }
        ∷ [])
read_report-to_bytes_example = read_report-to_bytes clicked clicked-IsReport true
