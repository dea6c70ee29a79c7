-- ===== src/Avr/Link/Reports.antt =====
-- The two sides together: the reports that the nRF sends reach the USB endpoint.
use mymouse.Base.{
  ℕ, ◌<◌, ◌≤◌, ◌≡◌, refl, ◌∙◌, ap, true, false, [], ◌∷◌, ◌++◌, length, take, arith, ◌==◌,
  Bool-cases, inl, inr, ◌&&◌, if◌then◌else◌,
}
use mymouse.Avr.Crc.{Ibutton}
use mymouse.Avr.Slave.{
  Slave, Wire, rx_buf, is_configured, spi_task, transaction, prepare_response, finish,
  process_transaction, send_report, transfer, get_next_tx_byte,
}
use mymouse.Avr.Slave.Answer.{next_crc}
use mymouse.Avr.Slave.Receive.{IsReceiving, transfer-received}
use mymouse.Avr.Link.{IsIdle, IsCommand, task-transaction}

module _ (control_size : ℕ) (ibutton : Ibutton) where
  open ibutton use {crc_ibutton_update}

  -- The state when the bytes of a report were clocked in.
  report_received :
      (w : Wire) (s : Slave)
      → IsIdle s
      → length s.rx_bytes ≡ 32
      → length w.data_bytes ≤ 32
      → let s₂ = record s { rx_data = rx_buf; num_rx = 32; tx_crc = crc_ibutton_update 0 0 } in
        let s₃ = (transfer ibutton w.data_bytes s₂).0 in
        (s₃ ≡ record s₂ { rx_idx = s₃.rx_idx; rx_bytes = s₃.rx_bytes })
        × (s₃.rx_idx ≡ length w.data_bytes)
        × (take s₃.rx_idx s₃.rx_bytes ≡ w.data_bytes)
        × ((if w.late then (get_next_tx_byte ibutton s₃).0 else s₃) ≡ s₃)
  report_received w s idle n l =
      let s₂ = record s { rx_data = rx_buf; num_rx = 32; tx_crc = crc_ibutton_update 0 0 } in
      let s₃ = (transfer ibutton w.data_bytes s₂).0 in
      let receiving : IsReceiving (length w.data_bytes) s₂ = record {
        sent = omega (arith, idle.no_tx_count);
        target = refl;
        limit = refl;
        buffer = n;
        room = omega (arith, idle.no_rx);
      } in
      let r = transfer-received ibutton w.data_bytes s₂ receiving in
      (
        r.0,
        omega (arith, r.1, idle.no_rx),
        r.2 ∙ rw idle.no_rx refl,
        elim (Bool-cases w.late) [
          | inl e ↦ rw e (
              ap (λ (p : Slave × ℕ). p.0)
                (next_crc ibutton s₃ (rw r.0 (omega (arith, idle.no_tx, idle.no_tx_count)))))
          | inr e ↦ rw e refl
        ],
      )

  finish-report :
      (w : Wire) (s : Slave)
      → w.command ≡ 0x0A
      → 0 < s.rx_idx
      → s.tx_idx ≡ s.num_tx
      → s.rx_data ≡ rx_buf
      → (finish control_size w s).reports ≡ (
          if is_configured w.usb && w.endpoint_ready
          then s.reports ++ take s.rx_idx s.rx_bytes ∷ []
          else s.reports)
  unfolding finish process_transaction send_report
  finish-report w s c p e b =
      let nonzero : (s.rx_idx == 0) ≡ false = ground (arith, p) in
      let all_sent : (s.tx_idx == s.num_tx) ≡ true = ground (arith, e) in
      rw (nonzero, all_sent, c, b) (ground arith)

  transaction-finish :
      (w : Wire) (s : Slave)
      → w.command ≡ 0x0A
      → let s₂ = record s { rx_data = rx_buf; num_rx = 32; tx_crc = crc_ibutton_update 0 0 } in
        let s₃ = (transfer ibutton w.data_bytes s₂).0 in
        (transaction control_size ibutton w s).0.reports
        ≡ (finish control_size w (if w.late then (get_next_tx_byte ibutton s₃).0 else s₃)).reports
  unfolding transaction prepare_response
  transaction-finish w s c = rw c refl

  -- A report that the nRF sends, of 1 to 32 bytes, reaches the USB endpoint with all its bytes in
  -- order and once, if USB is configured and the endpoint takes data, and nothing goes to it
  -- otherwise. The AVR is between two transactions.
  pub spi_task-report :
      (w : Wire) (s : Slave)
      → IsIdle s
      → IsCommand 0x0A w
      → length s.rx_bytes ≡ 32
      → 0 < length w.data_bytes
      → length w.data_bytes ≤ 32
      → (spi_task control_size ibutton w s).0.reports ≡ (
          if is_configured w.usb && w.endpoint_ready
          then s.reports ++ w.data_bytes ∷ []
          else s.reports)
  spi_task-report w s idle c n p l =
      let (e, i, t, late) = report_received w s idle n l in
      let s₂ = record s { rx_data = rx_buf; num_rx = 32; tx_crc = crc_ibutton_update 0 0 } in
      let s₃ = (transfer ibutton w.data_bytes s₂).0 in
      rw
        (
          task-transaction control_size ibutton w s 0x0A idle c (omega arith),
          transaction-finish w s c.command_is,
          late,
        )
        (finish-report w s₃ c.command_is (omega (arith, i, p))
            (rw e (omega (arith, idle.no_tx, idle.no_tx_count))) (rw e refl)
          ∙ rw t (rw e refl))
