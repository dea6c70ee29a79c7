-- ===== src/Usb/Requests.antt =====
-- What the host reads back, and how it gets into the bootloader.
use Prim.Native.Nat.{bit_and}
use mymouse.Base.{
  ℕ, ◌+◌, ◌*◌, ◌/◌, ◌%◌, ◌^◌, ◌≡◌, ◌↔◌, refl, true, false, arith, [], ◌∷◌, ◌++◌, ◌==◌,
  if◌then◌else◌,
}
use mymouse.Base.Bits.Masks.{bit_and-shifted, bit_and-ones}
use mymouse.Usb.{
  Usb, ControlRequest, Request, get_idle, set_idle, get_protocol, set_protocol, set_report,
  device_to_host, host_to_device, clear_setup, write_8, clear_in, clear_status_stage,
  control_request, handle_set_report,
}

high_byte : (w : ℕ) → bit_and w 0xFF00 ≡ w / 256 % 256 * 256
high_byte w =
    let e : w / 256 * 2 ^ 8 + w % 256 ≡ w = omega arith in
    let shifted : bit_and w 0xFF00 ≡ bit_and (w / 256) 0xFF * 2 ^ 8 =
      rw e at (bit_and-shifted 8 (w / 256) (w % 256) 0xFF (omega arith)) in
    let f : w / 256 / 256 * 2 ^ 8 + w / 256 % 256 ≡ w / 256 = omega arith in
    let ones : bit_and (w / 256) 0xFF ≡ w / 256 % 256 =
      rw f at (bit_and-ones 8 (w / 256 / 256) (w / 256 % 256) (omega arith)) in
    omega (arith, shifted, ones)

low_byte : (w : ℕ) → bit_and w 0xFF ≡ w % 256
low_byte w =
    let f : w / 256 * 2 ^ 8 + w % 256 ≡ w = omega arith in
    rw f at (bit_and-ones 8 (w / 256) (w % 256) (omega arith))

abbrev pub request : Request → ℕ → ℕ → ControlRequest
request b value length = record {
  b_request = b;
  bm_request_type = host_to_device;
  w_value = value;
  w_length = length;
}

abbrev pub question : Request → ℕ → ControlRequest
question b length = record {
  b_request = b;
  bm_request_type = device_to_host;
  w_value = 0;
  w_length = length;
}

-- After the host sets the idle period and the protocol, in this order, its questions for the two
-- are answered with the upper byte of the first value and with whether the second one is not 0.
control_request-read_back :
    (idle protocol key : ℕ) (u : Usb)
    → let u' =
        control_request
          (request set_protocol protocol 0)
          key
          (control_request (request set_idle idle 0) key u) in
      ((control_request (question get_idle 1) key u').calls
        ≡ u'.calls ++ clear_setup ∷ write_8 (idle / 256 % 256) ∷ clear_in ∷ clear_status_stage ∷ [])
      × ((control_request (question get_protocol 1) key u').calls
          ≡ u'.calls
            ++ clear_setup
              ∷ write_8 (if protocol == 0 then 0 else 1)
              ∷ clear_in
              ∷ clear_status_stage
              ∷ [])
unfolding control_request
control_request-read_back idle protocol key u =
    let e : bit_and idle 0xFF00 / 2 ^ 6 / 2 ^ 2 % 2 ^ 8 ≡ idle / 256 % 256 =
      omega (arith, high_byte idle) in
    (rw e refl, ground arith)

-- The AVR goes to reset exactly if the host sets the two-byte report with the id 8, to an interface
-- as a class request, and the key is 0x42. It was not on its way to reset before.
pub control_request-resetting :
    (r : ControlRequest) (key : ℕ) (u : Usb)
    → u.resetting ≡ false
    → ((control_request r key u).resetting ≡ true) ↔ (
        (r.b_request ≡ set_report)
        × (r.bm_request_type ≡ host_to_device)
        × (r.w_value % 256 ≡ 8)
        × (r.w_length ≡ 2)
        × (key ≡ 0x42))
unfolding control_request handle_set_report
control_request-resetting r key u h = ground (arith, low_byte r.w_value)
