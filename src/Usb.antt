-- ===== src/Usb.antt =====
-- app-avr/src/Mouse.c: the control requests of the USB host, and the idle timer. The request comes
-- from LUFA and is an argument, with the two bytes that the host sends for a report. What the code
-- does to the control endpoint is listed in the state, in order.
pub mod Descriptors
pub mod Requests
mod Tests
use Prim.Native.Nat.{bit_and}
use mymouse.Base.{
  ◌^◌, ℕ, ◌+◌, ◌-◌, ◌*◌, ◌/◌, ◌%◌, Bool, true, false, not, ◌&&◌, ◌==◌, if◌then◌else◌, List, [], ◌∷◌,
  ◌++◌,
}

-- The values of bRequest that the code handles.
pub data Request : Type 0 where
  get_report set_report get_protocol set_protocol set_idle get_idle : Request
  other_request : ℕ → Request

-- bmRequestType: the two directions of a class request to an interface, and the rest.
pub data RequestType : Type 0 where
  device_to_host host_to_device other_type : RequestType

pub record ControlRequest : Type 0 where
  pub b_request : Request
  pub bm_request_type : RequestType
  pub w_value : ℕ
  pub w_length : ℕ

pub data EndpointCall : Type 0 where
  clear_setup discard_8 clear_out clear_status_stage stall_transaction clear_in : EndpointCall
  write_8 : ℕ → EndpointCall

pub record Usb : Type 0 where
  pub using_report_protocol : Bool
  pub idle_count : ℕ
  pub idle_ms_remaining : ℕ
  pub calls : List EndpointCall
  pub resetting : Bool  -- detached, and waiting for the watchdog

abbrev pub of_bool : Bool → ℕ
of_bool true = 1
of_bool false = 0

abbrev pub is_in : RequestType → Bool
is_in device_to_host = true
is_in _ = false

abbrev pub is_out : RequestType → Bool
is_out host_to_device = true
is_out _ = false

abbrev pub device_control_report_id : ℕ
device_control_report_id = 8

abbrev pub enter_bootloader_key : ℕ
enter_bootloader_key = 0x42

-- Calls in a row.
abbrev pub call : List EndpointCall → Usb → Usb
call cs u = record u { calls = u.calls ++ cs }

-- HID_REQ_SetReport, with the key that the host sends after the report id.
unfoldable pub handle_set_report : ControlRequest → ℕ → Usb → Usb
handle_set_report r key u =
    if is_out r.bm_request_type
      && (bit_and r.w_value 0xFF == device_control_report_id)
      && (r.w_length == 2)
    then (if key == enter_bootloader_key
        then (record (call (clear_setup ∷ discard_8 ∷ clear_out ∷ clear_status_stage ∷ []) u) {
          resetting = true;
        })
        else call (clear_setup ∷ discard_8 ∷ stall_transaction ∷ []) u)
    else u

unfoldable pub control_request : ControlRequest → ℕ → Usb → Usb
control_request r key u = elim (r.b_request) [
  | get_report ↦ u
  | set_report ↦ handle_set_report r key u
  | get_protocol ↦
      if is_in r.bm_request_type
      then call
          (clear_setup
            ∷ write_8 (of_bool u.using_report_protocol)
            ∷ clear_in
            ∷ clear_status_stage
            ∷ [])
          u
      else u
  | set_protocol ↦
      if is_out r.bm_request_type
      then (record (call (clear_setup ∷ clear_status_stage ∷ []) u) {
        using_report_protocol = not (r.w_value == 0);
      })
      else u
  | set_idle ↦
      if is_out r.bm_request_type
      then (record (call (clear_setup ∷ clear_status_stage ∷ []) u) {
        idle_count = bit_and r.w_value 0xFF00 / 2 ^ 6;
      })
      else u
  | get_idle ↦
      if is_in r.bm_request_type
      then call
          (clear_setup
            ∷ write_8 (u.idle_count / 2 ^ 2 % 2 ^ 8)
            ∷ clear_in
            ∷ clear_status_stage
            ∷ [])
          u
      else u
  | other_request n ↦ u
]

unfoldable pub start_of_frame : Usb → Usb
start_of_frame u =
    if u.idle_ms_remaining == 0
    then u
    else (record u { idle_ms_remaining = u.idle_ms_remaining - 1 })
