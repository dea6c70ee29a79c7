-- ===== src/Avr/HostTests.antt =====
-- A USB host that reads a mouse report by the descriptors of the AVR and of the nRF.
use mymouse.Base.{
  Bool, none, ◌&&◌, if◌then◌else◌, ℕ, ◌≡◌, refl, true, false, List, [], ◌∷◌, ◌++◌, some, replicate,
  arith,
}
use mymouse.Base.Int.{pos, negsuc}
use mymouse.Avr.Crc.{Ibutton, update_crc}
use mymouse.Avr.Slave.{Slave, Wire, null, unattached, spi_task}
use mymouse.Avr.Link.{IsIdle, IsCommand}
use mymouse.Avr.Link.Descriptor.{report_descriptor, read_report-report_descriptor}
use mymouse.Hid.Report.{Report, IsReport, to_bytes}
use mymouse.Hid.Map.{hid_report_map, hid_report_id}
use mymouse.Hid.Map.Host.{read_bytes, items_of, take_items, host_of, read_report}
use mymouse.Hid.Map.Joined.{IsPreamble}

-- The vendor's output report with the id 8.
abbrev control : List ℕ
control =
    0x06 ∷ 0xDC ∷ 0xFF ∷ 0xA1 ∷ 0x01 ∷ 0x85 ∷ 0x08 ∷ 0x15 ∷ 0x00 ∷ 0x25 ∷ 0xFF ∷ 0x75 ∷ 0x08 ∷ 0x96
    ∷ 0x01 ∷ 0x00 ∷ 0x91 ∷ 0x02 ∷ 0xC0 ∷ 0x85 ∷ 0x00 ∷ []

control-IsPreamble : IsPreamble control
unfolding read_bytes items_of take_items host_of
control-IsPreamble = record {
  whole_items = refl;
  no_usages = refl;
  no_usage_min = refl;
  no_bits = refl;
  no_fields = refl;
}

abbrev library : Ibutton
library = record { crc_ibutton_update = update_crc; update_lem = λ crc byte h k. refl }

abbrev new_slave : Slave
new_slave = record {
  enabled = true;
  num_tx = 0;
  num_rx = 0;
  tx_data = [];
  rx_data = null;
  tx_idx = 0;
  rx_idx = 0;
  tx_crc = 0;
  rx_bytes = replicate 32 0;
  descriptor = replicate 235 0;
  report_length = 0;
  usb_inits = 0;
  reports = [];
}

new_slave-IsIdle : IsIdle new_slave
new_slave-IsIdle = record {
  is_enabled = refl;
  no_tx = refl;
  no_tx_count = refl;
  no_rx = refl;
  no_rx_count = refl;
}

abbrev wire : Wire
wire = record {
  cs_high = false;
  handshake = 0x42;
  command = 0x08;
  data_bytes = hid_report_map;
  late = false;
  usb = unattached;
  endpoint_ready = false;
}

wire-IsCommand : IsCommand 0x08 wire
wire-IsCommand = record { selected = refl; shaken = refl; command_is = refl }

-- A right click and a movement down.
abbrev right_click : Report
right_click = record {
  left = 0;
  right = 1;
  middle = 0;
  unused = 0;
  wheel_delta = 0;
  x_delta = 0;
  y_delta = 0xFFB;
}

right_click-IsReport : IsReport right_click
right_click-IsReport = record {
  left_fits = omega arith;
  right_fits = omega arith;
  middle_fits = omega arith;
  unused_fits = omega arith;
  wheel_fits = omega arith;
  x_fits = omega arith;
  y_fits = omega arith;
}

read_report-report_descriptor_example :
    let descriptor = report_descriptor control (spi_task 21 library wire new_slave).0 in
    (descriptor ≡ control ++ hid_report_map)
    × ((strict : Bool)
        → read_report strict descriptor (hid_report_id ∷ to_bytes right_click) ≡ (
            if strict && true
            then none
            else some (
                record { page = 0x09; usage = 1; value = some (pos 0) }
                ∷ record { page = 0x09; usage = 2; value = some (pos 1) }
                ∷ record { page = 0x09; usage = 3; value = some (pos 0) }
                ∷ record { page = 0x01; usage = 0x38; value = some (pos 0) }
                ∷ record { page = 0x01; usage = 0x30; value = some (pos 0) }
                ∷ record { page = 0x01; usage = 0x31; value = some (negsuc 4) }
                ∷ [])))
unfolding take_items items_of read_bytes host_of
read_report-report_descriptor_example =
    read_report-report_descriptor control library wire new_slave right_click control-IsPreamble
      (omega arith) (omega arith) new_slave-IsIdle wire-IsCommand refl refl refl
      right_click-IsReport
