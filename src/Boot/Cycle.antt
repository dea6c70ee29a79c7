-- ===== src/Boot/Cycle.antt =====
-- The AVR over its resets: application_jump_check and main of app-avr/bootloader/BootloaderHID.c, with
-- the application of app-avr/src/Mouse.c as far as it can cause a reset. The flash memory and
-- magic_boot_key survive a reset; the latter has any value when the power comes on.
pub mod Kept
pub mod Update
mod Tests
use mymouse.Base.{ℕ, ◌≡◌, Bool, true, false, List, [], Option, none, some, if◌then◌else◌}
use mymouse.Usb
use mymouse.Boot.{Flash, Bootloader, ControlRequest, control_request, application_jump_check}

abbrev pub magic_boot_key_value : ℕ
magic_boot_key_value = 0xDC42

-- The state that the application starts with.
abbrev pub new_usb : Usb.Usb
new_usb = record {
  using_report_protocol = true;
  idle_count = 0;
  idle_ms_remaining = 0;
  calls = [];
  resetting = false;
}

module _ (flash : Flash) (junk : ℕ) where
  -- What runs, with magic_boot_key. The application has the flash memory beside it.
  pub data Stage : Type 0 where
    application : Usb.Usb → ℕ → flash.State → Stage
    programming : Bootloader flash → ℕ → Stage

  abbrev pub memory_of : Stage → flash.State
  memory_of (application u key memory) = memory
  memory_of (programming b key) = b.memory

  abbrev pub key_of : Stage → ℕ
  key_of (application u key memory) = key
  key_of (programming b key) = key

  -- A reset, by the watchdog or not, up to the loop of the program that runs then.
  unfoldable pub after_reset : Bool → ℕ → flash.State → Stage
  unfolding application_jump_check
  after_reset watchdog key memory =
      let (to_application, key') = application_jump_check watchdog key in
      if to_application
      then application new_usb key' memory
      else programming (record { run_bootloader = true; memory = memory; calls = [] }) key'

  -- A request of the host to the application, with the key that it sends.
  unfoldable pub serve : Usb.ControlRequest → ℕ → Usb.Usb → ℕ → flash.State → Stage
  unfolding after_reset
  serve r key_sent u key memory =
      let u' = Usb.control_request r key_sent u in
      if u'.resetting then after_reset true key memory else application u' key memory

  -- A round of the bootloader's loop: no request, or one with the packets after it.
  unfoldable pub main_round :
      Option (ControlRequest × List (List ℕ)) → Bootloader flash → Option (Bootloader flash)
  main_round none b = some b
  main_round (some (r, packets)) b = control_request flash junk r packets b

  -- The condition of the loop, and what follows it.
  unfoldable pub main_next : Bootloader flash → ℕ → Stage
  unfolding after_reset
  main_next b key =
      if b.run_bootloader then programming b key else after_reset true magic_boot_key_value b.memory

  -- The steps. The application hangs, when the watchdog that the boot check enabled resets the AVR;
  -- the bootloader has disabled it. The power can fail at any time.
  pub data Step (s t : Stage) : Type 0 where
    served :
        (r : Usb.ControlRequest) (key_sent : ℕ) (u : Usb.Usb) (key : ℕ) (memory : flash.State)
        → s ≡ application u key memory
        → t ≡ serve r key_sent u key memory
        → Step s t
    hung :
        (u : Usb.Usb) (key : ℕ) (memory : flash.State)
        → s ≡ application u key memory
        → t ≡ after_reset true key memory
        → Step s t
    rounded :
        (r : Option (ControlRequest × List (List ℕ))) (b b' : Bootloader flash) (key : ℕ)
        → s ≡ programming b key
        → main_round r b ≡ some b'
        → t ≡ main_next b' key
        → Step s t
    powered : (key : ℕ) → t ≡ after_reset false key (memory_of s) → Step s t

  pub data Reaches (s : Stage) : Stage → Type 0 where
    here : Reaches s s
    next : (t u : Stage) → Reaches s t → Step t u → Reaches s u
