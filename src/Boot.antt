-- ===== src/Boot.antt =====
-- app-avr/bootloader/BootloaderHID.c: the control request that programs the flash memory. The flash
-- is the parameter `Flash`. The packets that the host sends are lists of 16-bit words; a result of
-- `none` waits for a packet for ever. What the code does to the control endpoint is listed in the
-- state, in order.
pub mod Program
pub mod Request
pub mod Cycle
use Prim.Native.Nat.{bit_and}
use mymouse.Base.{
  ℕ, zero, suc, ◌+◌, ◌-◌, ◌*◌, ◌/◌, Bool, true, false, not, ◌&&◌, ◌||◌, List, [], ◌∷◌, ◌++◌, Option,
  none, some, ltb, ◌==◌, if◌then◌else◌,
}

-- boot_page_erase, boot_page_fill, boot_page_write and boot_rww_enable, with the wait after them.
pub record Flash : Type 1 where
  pub State : Type 0
  pub page_erase : ℕ → State → State
  pub page_fill : ℕ → ℕ → State → State
  pub page_write : ℕ → State → State
  pub rww_enable : State → State

-- SPM_PAGESIZE of the ATmega8U2.
abbrev pub spm_pagesize : ℕ
spm_pagesize = 64

abbrev pub boot_start_addr : ℕ
boot_start_addr = 0x1800

abbrev pub command_startapplication : ℕ
command_startapplication = 0xFFFF

pub data EndpointCall : Type 0 where
  clear_setup clear_out stall_transaction clear_status_stage : EndpointCall

-- Whether the request is a class request to an interface, and whether it is HID_REQ_SetReport.
pub record ControlRequest : Type 0 where
  pub is_hid : Bool
  pub is_set_report : Bool

abbrev pub is_page_address_aligned : ℕ → Bool
is_page_address_aligned address = bit_and address (spm_pagesize - 1) == 0

module _ (flash : Flash) where
  open flash use {State, page_erase, page_fill, page_write, rww_enable}

  pub record Bootloader : Type 0 where
    pub run_bootloader : Bool
    pub memory : State
    pub calls : List EndpointCall

  abbrev pub call : EndpointCall → Bootloader → Bootloader
  call c b = record b { calls = b.calls ++ c ∷ [] }

  -- What a read from an empty endpoint gives.
  module _ (junk : ℕ) where
    -- Endpoint_Read_16_LE, with what is left of the packet.
    abbrev pub read_16 : List ℕ → ℕ × List ℕ
    read_16 [] = (junk, [])
    read_16 (word ∷ packet) = (word, packet)

    -- The loop for the words of the page: how many are left, the number of the next one, the rest of
    -- the packet and the packets after it.
    unfoldable pub fill_page : ℕ → ℕ → ℕ → List ℕ → List (List ℕ) → Bootloader → Option Bootloader
    fill_page zero page_word address packet packets b = some b
    fill_page (suc n) page_word address [] [] b = none
    fill_page (suc n) page_word address [] (p ∷ packets) b =
        let (word, rest) = read_16 p in
        let b' = call clear_out b in
        fill_page n (page_word + 1) address rest packets
          (record b' { memory = page_fill (address + page_word * 2) word b'.memory })
    fill_page (suc n) page_word address (word ∷ packet) packets b =
        fill_page n (page_word + 1) address packet packets
          (record b { memory = page_fill (address + page_word * 2) word b.memory })

    unfoldable pub program_page : ℕ → List ℕ → List (List ℕ) → Bootloader → Option Bootloader
    program_page address packet packets b =
        let erased = record b { memory = page_erase address b.memory } in
        elim (fill_page (spm_pagesize / 2) 0 address packet packets erased) [
          | none ↦ none
          | some b' ↦ some (record b' { memory = rww_enable (page_write address b'.memory) })
        ]

    abbrev pub finish : Option Bootloader → Option Bootloader
    finish none = none
    finish (some b) = some (call clear_status_stage (call clear_out b))

    unfoldable pub set_report : List (List ℕ) → Bootloader → Option Bootloader
    set_report [] b = none
    set_report (p ∷ packets) b =
        let (page_address, packet) = read_16 p in
        let programmed = program_page page_address packet packets b in
        finish (
          if page_address == command_startapplication
          then some (record b { run_bootloader = false })
          else (if not (ltb page_address boot_start_addr && is_page_address_aligned page_address)
              then some (call stall_transaction b)
              else programmed))

    unfoldable pub control_request : ControlRequest → List (List ℕ) → Bootloader → Option Bootloader
    control_request r packets b =
        let reported = set_report packets (call clear_setup b) in
        if not r.is_hid then some b else (if r.is_set_report then reported else some b)

-- What `application_jump_check` does after a reset, with magic_boot_key: `true` jumps to the
-- application.
unfoldable pub application_jump_check : Bool → ℕ → Bool × ℕ
application_jump_check watchdog_reset magic_boot_key =
    if not watchdog_reset || magic_boot_key == 0xDC42 then (true, 0) else (false, magic_boot_key)
