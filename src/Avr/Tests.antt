-- ===== src/Avr/Tests.antt =====
-- The theorems on the link to the AVR at concrete inputs.
use mymouse.Base.{
  ℕ, ◌≡◌, refl, true, false, List, [], ◌∷◌, none, take, drop, replicate, arith, eio, ok, err,
}
use mymouse.Avr.Crc.{Ibutton, update_crc, shift_all, shift_out, crc_from}
use mymouse.Avr.Slave.{Slave, Wire, null, configured, spi_task}
use mymouse.Avr.Master.{avr_transceive, verify_avr_id, check_crc, avr_spi_done_callback}
use mymouse.Avr.Check.{both_done, avr_transceive-corrupted}
use mymouse.Avr.Link.{IsIdle, IsCommand, calls_of, verify_avr_id-spi_task}
use mymouse.Avr.Link.Reports.{spi_task-report}
use mymouse.Avr.Thread.{Answer, avr_comm_loop, avr_comm_loop-none}

-- The CRC of the device id.
id_crc : crc_from 0 (0x1E ∷ 0x93 ∷ 0x89 ∷ []) ≡ 0x38
unfolding crc_from update_crc shift_all shift_out
id_crc = refl

id_accepted : avr_transceive none both_done (0x1E ∷ 0x93 ∷ 0x89 ∷ 0x38 ∷ []) ≡ ok 0
unfolding avr_transceive avr_spi_done_callback check_crc update_crc shift_all shift_out
id_accepted = refl

avr_transceive-corrupted_example :
    avr_transceive none both_done (0x1E ∷ 0x92 ∷ 0x89 ∷ 0x38 ∷ []) ≡ err eio
avr_transceive-corrupted_example =
    avr_transceive-corrupted (0x1E ∷ []) 0x93 0x92 (0x89 ∷ 0x38 ∷ []) (omega arith) (omega arith)
      (omega arith) (omega arith) (omega arith) (omega arith) id_accepted

-- A library function that is the loop itself.
abbrev ibutton_loop : Ibutton
ibutton_loop = record { crc_ibutton_update = update_crc; update_lem = λ crc byte h k. refl }

abbrev idle_slave : Slave
idle_slave = record {
  enabled = true;
  num_tx = 0;
  num_rx = 0;
  tx_data = [];
  rx_data = null;
  tx_idx = 0;
  rx_idx = 0;
  tx_crc = 0;
  rx_bytes = replicate 32 0;
  descriptor = [];
  report_length = 0;
  usb_inits = 1;
  reports = [];
}

idle_slave-IsIdle : IsIdle idle_slave
idle_slave-IsIdle = record {
  is_enabled = refl;
  no_tx = refl;
  no_tx_count = refl;
  no_rx = refl;
  no_rx_count = refl;
}

abbrev wire : ℕ → List ℕ → Wire
wire command bytes = record {
  cs_high = false;
  handshake = 0x42;
  command = command;
  data_bytes = bytes;
  late = true;
  usb = configured;
  endpoint_ready = true;
}

wire-IsCommand : (command : ℕ) (bytes : List ℕ) → IsCommand command (wire command bytes)
wire-IsCommand command bytes = record { selected = refl; shaken = refl; command_is = refl }

verify_avr_id-spi_task_example :
    let sent = (spi_task 23 ibutton_loop (wire 0x06 (0 ∷ 0 ∷ 0 ∷ 0 ∷ [])) idle_slave).1 in
    verify_avr_id none (calls_of sent) (take 4 (drop 1 sent)) ≡ ok 0
verify_avr_id-spi_task_example =
    verify_avr_id-spi_task 23 ibutton_loop (wire 0x06 (0 ∷ 0 ∷ 0 ∷ 0 ∷ [])) idle_slave
      idle_slave-IsIdle (wire-IsCommand 0x06 (0 ∷ 0 ∷ 0 ∷ 0 ∷ [])) refl

spi_task-report_example :
    (spi_task 23 ibutton_loop (wire 0x0A (1 ∷ 4 ∷ 0 ∷ 1 ∷ 0 ∷ 0 ∷ [])) idle_slave).0.reports
    ≡ (1 ∷ 4 ∷ 0 ∷ 1 ∷ 0 ∷ 0 ∷ []) ∷ []
spi_task-report_example =
    spi_task-report 23 ibutton_loop (wire 0x0A (1 ∷ 4 ∷ 0 ∷ 1 ∷ 0 ∷ 0 ∷ [])) idle_slave
      idle_slave-IsIdle (wire-IsCommand 0x0A (1 ∷ 4 ∷ 0 ∷ 1 ∷ 0 ∷ 0 ∷ [])) refl (omega arith)
      (omega arith)

-- An unplugged AVR: MISO is high when the second byte of the handshake comes.
abbrev unplugged : ℕ → Answer
unplugged n = record {
  managed = none;
  done = record { handshake_rx = 0xFF; second = none } ∷ [];
  response = [];
}

avr_comm_loop-none_example : avr_comm_loop (0xA1 ∷ 0x01 ∷ []) 1 50 unplugged ≡ none
avr_comm_loop-none_example = avr_comm_loop-none (0xA1 ∷ 0x01 ∷ []) 1 50 unplugged (λ i. (refl, tt))
