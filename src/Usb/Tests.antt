-- ===== src/Usb/Tests.antt =====
-- The theorems on the USB requests at concrete requests.
use mymouse.Base.{◌%◌, ◌≡◌, ◌↔◌, refl, true, [], false}
use mymouse.Usb.{enter_bootloader_key, Usb, set_report, host_to_device, control_request}
use mymouse.Usb.Requests.{request, control_request-resetting}

abbrev fresh : Usb
fresh = record {
  using_report_protocol = true;
  idle_count = 0;
  idle_ms_remaining = 0;
  calls = [];
  resetting = false;
}

control_request-resetting_example :
    let r = request set_report 0x0208 2 in
    ((control_request r enter_bootloader_key fresh).resetting ≡ true) ↔ (
      (r.b_request ≡ set_report)
      × (r.bm_request_type ≡ host_to_device)
      × (r.w_value % 256 ≡ 8)
      × (r.w_length ≡ 2)
      × (enter_bootloader_key ≡ 0x42))
control_request-resetting_example =
    control_request-resetting (request set_report 0x0208 2) 0x42 fresh refl
