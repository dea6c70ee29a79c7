-- ===== src/Avr/Thread.antt =====
-- The thread of app-nrf/src/services/avr_comm.c: whether the AVR is there, and the commands that it is
-- sent until it is gone. What the lines read, and what the SPI driver reports, are arguments.
pub mod Rounds
use mymouse.Base.{
  ℕ, zero, suc, ◌+◌, ◌≡◌, refl, Bool, true, false, not, ◌&&◌, List, [], ◌∷◌, Option, none, some,
  ◌==◌, if◌then◌else◌, AllOf, Errno, eio, Ret, ok, err, arith,
}
use mymouse.Avr.Master.{
  Context, Done, avr_spi_done_callback, run_callbacks, avr_transceive, verify_avr_id,
  handshake_rx_value,
}

-- The CS pin, and the pull-up of the IRQ pin.
pub record Lines : Type 0 where
  pub cs_high : Bool
  pub irq_pull_up : Bool

abbrev pub avr_init_gpios : Lines → Lines
avr_init_gpios l = record { cs_high = false; irq_pull_up = false }

-- The two levels of IRQ: with the pull-up, and after CS has gone high.
unfoldable pub did_avr_appear : Bool → Bool → Lines → Bool × Lines
did_avr_appear irq irq_after l =
    let pulled = record l { irq_pull_up = true } in
    if irq && not irq_after
    then (true, record pulled { cs_high = true })
    else (false, record { cs_high = false; irq_pull_up = false })

-- A command with its payload, and how many bytes are received.
pub record Command : Type 0 where
  pub id : ℕ
  pub payload : List ℕ
  pub rx_len : ℕ

-- What happens on the bus when the id is asked for.
pub record Answer : Type 0 where
  pub managed : Option Errno
  pub done : List Done
  pub response : List ℕ

abbrev pub is_one : Ret → Bool
is_one (ok n) = n == 1
is_one (err e) = false

module _ (hid_report_map : List ℕ) (hid_report_id : ℕ) where
  abbrev pub send_report_descriptor : Command
  send_report_descriptor = record { id = 0x08; payload = hid_report_map; rx_len = 0 }

  abbrev pub enable_usb : Command
  enable_usb = record { id = 0x09; payload = 1 ∷ []; rx_len = 0 }

  -- The five bytes of a report with an `x_delta` of 1.
  abbrev pub send_report : Command
  send_report = record { id = 0x0A; payload = hid_report_id ∷ 0 ∷ 0 ∷ 1 ∷ 0 ∷ 0 ∷ []; rx_len = 0 }

  abbrev pub ask_id : Command
  ask_id = record { id = 0x06; payload = []; rx_len = 4 }

  -- The loop on fuel, from round `n` on: the commands that are sent, and whether it has ended.
  unfoldable pub send_reports : ℕ → ℕ → (ℕ → Answer) → List Command × Bool
  send_reports zero n answers = ([], false)
  send_reports (suc fuel) n answers =
      let a = answers n in
      let (commands, ended) = send_reports fuel (n + 1) answers in
      if is_one (verify_avr_id a.managed a.done a.response)
      then (send_report ∷ ask_id ∷ [], true)
      else (send_report ∷ ask_id ∷ commands, ended)

  unfoldable pub comm_trace : ℕ → (ℕ → Answer) → List Command × Bool
  comm_trace fuel answers =
      let (commands, ended) = send_reports fuel 0 answers in
      (send_report_descriptor ∷ enable_usb ∷ commands, ended)

  -- The commands of a loop that ends.
  unfoldable pub avr_comm_loop : ℕ → (ℕ → Answer) → Option (List Command)
  unfolding comm_trace
  avr_comm_loop fuel answers =
      let (commands, ended) = comm_trace fuel answers in if ended then some commands else none

  -- The AVR does not answer the handshake.
  abbrev pub IsDeaf : Done → Type 0
  IsDeaf d = (d.handshake_rx == handshake_rx_value) ≡ false

  abbrev has_error : Option Errno → Bool
  has_error none = false
  has_error (some e) = true

  callbacks-has_error :
      (ds : List Done) (c : Context)
      → AllOf IsDeaf ds
      → c.spec_set ≡ true
      → has_error c.error ≡ true
      → has_error (run_callbacks ds c).error ≡ true
  unfolding avr_spi_done_callback
  callbacks-has_error [] c h s e = e
  callbacks-has_error (d ∷ ds) c (hd, h) s e =
      callbacks-has_error ds (avr_spi_done_callback d c) h (ground (arith, s, hd))
        (ground (arith, s, hd, e))

  verify_avr_id-is_one :
      (a : Answer)
      → AllOf IsDeaf a.done
      → is_one (verify_avr_id a.managed a.done a.response) ≡ false
  unfolding verify_avr_id avr_transceive
  verify_avr_id-is_one a h =
      let c : Context = record { error = some eio; spec_set = true; given = false } in
      ground (arith, callbacks-has_error a.done c h refl refl)

  send_reports_endless :
      (fuel n : ℕ) (answers : ℕ → Answer)
      → ((i : ℕ) → AllOf IsDeaf (answers i).done)
      → (send_reports fuel n answers).1 ≡ false
  unfolding send_reports
  send_reports_endless zero n answers h = refl
  send_reports_endless (suc fuel) n answers h =
      ground
        (arith, verify_avr_id-is_one (answers n) (h n), send_reports_endless fuel (n + 1) answers h)

  -- When the AVR does not answer the handshake any more, the loop of the thread never ends, however
  -- many rounds it runs: an error of the transfer is not the result that ends it.
  pub avr_comm_loop-none :
      (fuel : ℕ) (answers : ℕ → Answer)
      → ((i : ℕ) → AllOf IsDeaf (answers i).done)
      → avr_comm_loop fuel answers ≡ none
  unfolding avr_comm_loop comm_trace
  avr_comm_loop-none fuel answers h = ground (arith, send_reports_endless fuel 0 answers h)
