-- ===== src/Avr/Link/Descriptor.antt =====
-- The report descriptor on its way from the nRF over the AVR to the USB host.
use mymouse.Base.{
  ◌%◌, Bool, Option, none, ◌&&◌, if◌then◌else◌, ℕ, suc, ◌+◌, ◌-◌, ◌<◌, ◌≤◌, ◌≡◌, refl, ◌∙◌, ap,
  List, [], ◌∷◌, ◌++◌, length, take, arith, Bool-cases, inl, inr, some,
}
use mymouse.Avr.Crc.{Ibutton}
use mymouse.Avr.Slave.{
  Slave, Wire, unattached, hid_report_desc, spi_task, transaction, prepare_response, finish,
  process_transaction, set_hid_report_size, get_hid_report_descriptor_buffer, transfer,
  get_next_tx_byte, cleanup,
}
use mymouse.Avr.Slave.Answer.{next_crc}
use mymouse.Avr.Slave.Describe.{IsDescribed, transfer-descriptor}
use mymouse.Avr.Link.{IsIdle, IsCommand, task-transaction}
use mymouse.Usb.Descriptors.{hid_dtype_report, get_descriptor}
use mymouse.Hid.Report.{Report, IsReport, to_bytes}
use mymouse.Hid.Map.{hid_report_map, hid_report_id}
use mymouse.Hid.Map.Host.{Control, host_of, read_report}
use mymouse.Hid.Map.Fields.{values_of, read_report-to_bytes}
use mymouse.Hid.Map.Joined.{IsPreamble, read_report-joined}

module _ (control_size : ℕ) (ibutton : Ibutton) where
  open ibutton use {crc_ibutton_update}

  -- The state in which the bytes of a descriptor are clocked in.
  abbrev describing : Slave → Slave
  describing s = record s {
    num_rx = 256 - control_size;
    rx_data = hid_report_desc;
    tx_crc = crc_ibutton_update 0 0;
  }

  descriptor_received :
      (w : Wire) (s : Slave)
      → IsIdle s
      → length s.descriptor ≡ 256 - control_size
      → length w.data_bytes ≤ 256 - control_size
      → let s₃ = (transfer ibutton w.data_bytes (describing s)).0 in
        (s₃ ≡ record (describing s) { rx_idx = s₃.rx_idx; descriptor = s₃.descriptor })
        × (s₃.rx_idx ≡ length w.data_bytes)
        × (take s₃.rx_idx s₃.descriptor ≡ w.data_bytes)
        × ((if w.late then (get_next_tx_byte ibutton s₃).0 else s₃) ≡ s₃)
  descriptor_received w s idle n l =
      let s₃ = (transfer ibutton w.data_bytes (describing s)).0 in
      let described : IsDescribed (length w.data_bytes) (describing s) = record {
        sent = omega (arith, idle.no_tx_count);
        target = refl;
        buffer = n;
        room = omega (arith, idle.no_rx, l);
      } in
      let r = transfer-descriptor ibutton w.data_bytes (describing s) described in
      (
        r.0,
        omega (arith, r.1, idle.no_rx),
        r.2 ∙ rw idle.no_rx refl,
        elim (Bool-cases w.late) [
          | inl e ↦ rw e (
              ap (λ (p : Slave × ℕ). p.0)
                (next_crc ibutton s₃ (rw r.0 (omega (arith, idle.no_tx, idle.no_tx_count)))))
          | inr e ↦ rw e refl
        ],
      )

  finish-descriptor :
      (w : Wire) (s : Slave)
      → w.command ≡ 0x08
      → w.usb ≡ unattached
      → 0 < s.rx_idx
      → control_size + s.rx_idx ≤ 256
      → s.tx_idx ≡ s.num_tx
      → finish control_size w s ≡ record s { report_length = control_size + s.rx_idx }
  unfolding finish process_transaction set_hid_report_size
  finish-descriptor w s c u p l e = ground (arith, c, u, p, l, e)

  transaction-finish :
      (w : Wire) (s : Slave)
      → w.command ≡ 0x08
      → w.usb ≡ unattached
      → 0 < control_size
      → let s₃ = (transfer ibutton w.data_bytes (describing s)).0 in
        (transaction control_size ibutton w s).0
        ≡ cleanup control_size ibutton
            (finish control_size w (if w.late then (get_next_tx_byte ibutton s₃).0 else s₃))
  unfolding transaction prepare_response get_hid_report_descriptor_buffer
  transaction-finish w s c u filled =
      let same : (256 - control_size) % 256 ≡ 256 - control_size = omega (arith, filled) in
      rw (c, u, same) refl

  -- The bytes that the nRF sends are in the buffer, and the length counts the AVR's own part too.
  spi_task-descriptor :
      (w : Wire) (s : Slave)
      → IsIdle s
      → IsCommand 0x08 w
      → w.usb ≡ unattached
      → length s.descriptor ≡ 256 - control_size
      → 0 < control_size
      → 0 < length w.data_bytes
      → control_size + length w.data_bytes ≤ 256
      → let s' = (spi_task control_size ibutton w s).0 in
        (s'.report_length ≡ control_size + length w.data_bytes)
        × (take (length w.data_bytes) s'.descriptor ≡ w.data_bytes)
  spi_task-descriptor w s idle c u n filled p l =
      let (e, i, t, late) = descriptor_received w s idle n (omega (arith, l)) in
      let s₃ = (transfer ibutton w.data_bytes (describing s)).0 in
      let ended =
        finish-descriptor w s₃ c.command_is u (omega (arith, i, p)) (omega (arith, i, l))
          (rw e (omega (arith, idle.no_tx, idle.no_tx_count))) in
      rw
        (
          task-transaction control_size ibutton w s 0x08 idle c (omega arith),
          transaction-finish w s c.command_is u filled,
          late,
          ended,
        )
        (rw i refl, rw (← i) t)

-- What the host gets when it asks for the report descriptor: as many bytes of the buffer as the AVR
-- says, where `control` is the AVR's own part.
unfoldable pub report_descriptor : List ℕ → Slave → List ℕ
report_descriptor control s =
    take (get_descriptor (λ o. s.report_length) hid_dtype_report 0).size (control ++ s.descriptor)

take-append : (xs ys : List ℕ) (n : ℕ) → take (length xs + n) (xs ++ ys) ≡ xs ++ take n ys
take-append [] ys n = ap (λ (k : ℕ). take k ys) (omega arith)
take-append (x ∷ xs) ys n =
    ap (λ (k : ℕ). take k (x ∷ xs ++ ys)) {y = suc (length xs + n)} (omega arith)
    ∙ ap (λ (l : List ℕ). x ∷ l) (take-append xs ys n)

length_map : length hid_report_map ≡ 68
unfolding hid_report_map
length_map = refl

-- Once the nRF has sent its report descriptor to the AVR that is between two transactions and not on
-- the USB bus yet, a host that asks the AVR for its report descriptor gets the AVR's own part and
-- the nRF's after it. By it a host reads every packet with the id of the mouse's report: it finds
-- exactly the three buttons, the wheel and the two movements, or null for the one value of the wheel
-- and of each movement below its range, whatever the report is whose fields fit their widths; but a
-- host that is strict on the reserved Report ID 0 reads nothing if the AVR's own part has that id.
-- The AVR's own part is not empty, leaves room for the other one and has whole items without
-- controls.
pub read_report-report_descriptor :
    (control : List ℕ) (ibutton : Ibutton) (w : Wire) (s : Slave) (r : Report)
    → IsPreamble control
    → 0 < length control
    → length control ≤ 188
    → IsIdle s
    → IsCommand 0x08 w
    → w.usb ≡ unattached
    → w.data_bytes ≡ hid_report_map
    → length s.descriptor ≡ 256 - length control
    → IsReport r
    → let descriptor = report_descriptor control (spi_task (length control) ibutton w s).0 in
      (descriptor ≡ control ++ hid_report_map)
      × ((strict : Bool)
          → read_report strict descriptor (hid_report_id ∷ to_bytes r)
            ≡ (if strict && (host_of control).reserved_id then none else some (values_of r)))
unfolding report_descriptor get_descriptor
read_report-report_descriptor control ibutton w s r preamble filled room idle c u sent n h =
    let (l, d) =
      spi_task-descriptor (length control) ibutton w s idle c u n filled
        (rw sent (omega (arith, length_map))) (rw sent (omega (arith, length_map, room))) in
    let whole : take _ (control ++ (spi_task (length control) ibutton w s).0.descriptor)
        ≡ control ++ hid_report_map =
      ap (λ (k : ℕ). take k (control ++ (spi_task (length control) ibutton w s).0.descriptor)) l
      ∙ take-append control _ (length w.data_bytes)
      ∙ ap (λ (x : List ℕ). control ++ x) (d ∙ sent) in
    (
      whole,
      λ strict.
          ap (λ (x : List ℕ). read_report strict x (hid_report_id ∷ to_bytes r)) whole
          ∙ read_report-joined strict control (hid_report_id ∷ to_bytes r) preamble
          ∙ ap
              (λ (o : Option (List Control)).
                if strict && (host_of control).reserved_id then none else o)
              (read_report-to_bytes r h strict),
    )
