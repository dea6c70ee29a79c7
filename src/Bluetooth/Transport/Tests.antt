-- ===== src/Bluetooth/Transport/Tests.antt =====
-- The transport at boot, and a report on its way to a host.
use mymouse.Base.{Bool, ℕ, ◌≡◌, refl, true, false, [], ◌∷◌, some, none, ok, arith}
use mymouse.Base.Int.{pos, negsuc}
use mymouse.Base.Bits.{test_bit}
use mymouse.Bitmask.Lowest.{lowest_bit}
use mymouse.Bitmask.Order.{scan}
use mymouse.Hid.Collector.Simple.{word_event}
use mymouse.Hid.Report.{Report, IsReport, empty, to_bytes}
use mymouse.Hid.Map.{hid_report_map, hid_report_id}
use mymouse.Hid.Map.Host.{read_report}
use mymouse.Hid.Collector.{Thread, serve}
use mymouse.Hid.Collector.Rounds.{taken}
use mymouse.Bluetooth.{available, bond, run_work}
use mymouse.Bluetooth.Transport.{
  Transport, conn_cb_register, bt_enable, settings_load, hids_init, init, detect_bootopts,
}
use mymouse.Bluetooth.Transport.Deliver.{sink, serve-read_report}
use mymouse.Bluetooth.Transport.Boot.{init-advertising}

-- The client 5, with encryption.
abbrev linked : Transport
linked = record {
  bt = record {
    current_client = some 5;
    security_level = 2;
    public_adv_requested = false;
    bonds_queue = [];
    adv_work_submitted = false;
    started = [];
    hids = [];
  };
  calls = [];
  sent = [];
  levels = [];
}

init-advertising_example :
    let (t', ret) = init 4 (7 ∷ 8 ∷ []) none none (detect_bootopts true) linked in
    (ret ≡ ok 0)
    × (t'.calls ≡ conn_cb_register ∷ bt_enable ∷ settings_load ∷ hids_init ∷ [])
    × ((run_work t'.bt).started ≡ bond 7 ∷ [])
init-advertising_example =
    init-advertising 4 (7 ∷ 8 ∷ []) linked (omega arith) (omega arith) none none true

abbrev thread : Thread word_event Transport
thread = record {
  collector = record { event = 5; enabled_sources = 7 };
  report = empty;
  rest = linked;
}

-- A filler that reports a step to the left.
abbrev step_left : ℕ → Thread word_event Transport → Thread word_event Transport
step_left i t = record t { report = record (t.report) { x_delta = 0xFFF } }

abbrev left_report : Report
left_report = record empty { x_delta = 0xFFF }

left_report-IsReport : IsReport (scan step_left 32 0 5 (taken word_event 5 thread)).report
unfolding scan test_bit
left_report-IsReport = record {
  left_fits = omega arith;
  right_fits = omega arith;
  middle_fits = omega arith;
  unused_fits = omega arith;
  wheel_fits = omega arith;
  x_fits = omega arith;
  y_fits = omega arith;
}

abbrev served : Thread word_event Transport
served =
    serve word_event lowest_bit step_left (sink word_event (λ s. s) (λ s t. t) (λ s t. refl)) 5
      thread

serve-read_report_example :
    (served.rest.sent ≡ (record { conn = some 5; index = 0; bytes = to_bytes left_report }) ∷ [])
    × (served.report ≡ empty)
    × ((strict : Bool)
        → read_report strict hid_report_map (hid_report_id ∷ to_bytes left_report)
          ≡ some (
              record { page = 0x09; usage = 1; value = some (pos 0) }
              ∷ record { page = 0x09; usage = 2; value = some (pos 0) }
              ∷ record { page = 0x09; usage = 3; value = some (pos 0) }
              ∷ record { page = 0x01; usage = 0x38; value = some (pos 0) }
              ∷ record { page = 0x01; usage = 0x30; value = some (negsuc 0) }
              ∷ record { page = 0x01; usage = 0x31; value = some (pos 0) }
              ∷ []))
unfolding scan test_bit available
serve-read_report_example =
    serve-read_report word_event (λ s. s) (λ s t. t) (λ s t. refl) lowest_bit step_left 5 thread
      (omega arith) left_report-IsReport
