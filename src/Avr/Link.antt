-- ===== src/Avr/Link.antt =====
-- The two sides together: the AVR's answer to the nRF's question who it is.
pub mod Reports
pub mod Descriptor
use mymouse.Base.{
  ℕ, zero, suc, ◌+◌, ◌<◌, ◌≤◌, ◌≡◌, ◌≢◌, refl, ◌∙◌, sym, ap, true, false, List, [], ◌∷◌, ◌++◌,
  Option, none, some, length, take, drop, AllOf, arith, Errno, eio, ebusy, Ret, ok, err, ◌==◌, Bool,
  Bool-cases, inl, inr, ◌&&◌, get_or, if◌then◌else◌,
}
use mymouse.Avr.Crc.{Ibutton, update_crc, crc_from}
use mymouse.Avr.Crc.Laws.{
  AllBytes, update_crc-lt, update_crc_injective_crc, update_crc_injective_byte,
}
use mymouse.Avr.Slave.{
  Slave, Wire, Buffer, rx_buf, is_configured, spi_task, transaction, prepare_response, finish,
  process_transaction, send_report, transfer, get_next_tx_byte,
}
use mymouse.Avr.Slave.Answer.{answer, IsSending, transfer-answer, next_crc}
use mymouse.Avr.Slave.Receive.{IsReceiving, transfer-received}
use mymouse.Avr.Master.{Done, check_crc, avr_transceive, verify_avr_id, avr_spi_done_callback}
use mymouse.Avr.Check.{answer-check_crc, accepted, verified, both_done}

-- The AVR is between two transactions.
pub record IsIdle (s : Slave) : Type 0 where
  pub is_enabled : s.enabled ≡ true
  pub no_tx : s.tx_idx ≡ 0
  pub no_tx_count : s.num_tx ≡ 0
  pub no_rx : s.rx_idx ≡ 0
  pub no_rx_count : s.num_rx ≡ 0

-- The chip select goes low, and the handshake and a command follow.
pub record IsCommand (command : ℕ) (w : Wire) : Type 0 where
  pub selected : w.cs_high ≡ false
  pub shaken : w.handshake ≡ 0x42
  pub command_is : w.command ≡ command

-- The calls of the callback when the master clocks these bytes in, and the data that it receives.
abbrev pub calls_of : List ℕ → List Done
calls_of sent =
    record { handshake_rx = get_or sent 0 0; second = none }
    ∷ record { handshake_rx = get_or sent 0 0; second = none }
    ∷ []

module _ (control_size : ℕ) (ibutton : Ibutton) where
  open ibutton use {crc_ibutton_update, update_lem}

  pub task-transaction :
      (w : Wire) (s : Slave) (command : ℕ)
      → IsIdle s
      → IsCommand command w
      → 0 < command
      → spi_task control_size ibutton w s ≡ (
        (transaction control_size ibutton w s).0,
        0x43 ∷ (transaction control_size ibutton w s).1,
      )
  unfolding spi_task
  task-transaction w s command idle c p =
      let nonzero : (w.command == 0) ≡ false = ground (arith, c.command_is) in
      rw (idle.is_enabled, c.selected, c.shaken, nonzero) refl

  id_answer :
      (w : Wire) (s : Slave)
      → IsIdle s
      → IsCommand 0x06 w
      → (transaction control_size ibutton w s).1
        ≡ 0x1E ∷ answer (length w.data_bytes) (update_crc 0 0x1E) (0x93 ∷ 0x89 ∷ [])
  unfolding transaction prepare_response
  id_answer w s idle c =
      let s₂ = record s {
        tx_data = 0x93 ∷ 0x89 ∷ [];
        num_tx = 2;
        tx_crc = crc_ibutton_update 0 0x1E;
      } in
      let crc : crc_ibutton_update 0 0x1E ≡ update_crc 0 0x1E =
        update_lem 0 0x1E (omega arith) (omega arith) in
      let sending : IsSending s₂ = record {
        counted = refl;
        in_range = omega (arith, idle.no_tx);
        crc_fits = rw crc (update_crc-lt 0 0x1E (omega arith) (omega arith));
        bytes = omega arith;
      } in
      rw c.command_is (
        ap (λ txs. 0x1E ∷ txs)
          (transfer-answer ibutton w.data_bytes s₂ sending ∙ rw (crc, idle.no_tx) refl))

  -- The AVR's answer to the command 0x06 is accepted by `verify_avr_id`: when the nRF clocks its
  -- handshake and command and then four bytes, whatever they are, the device id and its checksum
  -- come back, and the result is 0. The AVR is between two transactions.
  pub verify_avr_id-spi_task :
      (w : Wire) (s : Slave)
      → IsIdle s
      → IsCommand 0x06 w
      → length w.data_bytes ≡ 4
      → let sent = (spi_task control_size ibutton w s).1 in
        verify_avr_id none (calls_of sent) (take 4 (drop 1 sent)) ≡ ok 0
  verify_avr_id-spi_task w s idle c n =
      rw (task-transaction w s 0x06 idle c (omega arith), id_answer w s idle c, n)
        (verified _ (answer-check_crc 0 (0x1E ∷ 0x93 ∷ 0x89 ∷ [])))
