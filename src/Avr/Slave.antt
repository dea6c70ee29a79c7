-- ===== src/Avr/Slave.antt =====
-- The AVR's side: app-avr/src/spi.c, spi_commands.c and reporting.c, and the buffer of the report
-- descriptor in descriptors.c.
-- The level is that of bytes: what `wait_for_rx_byte` returns and which bytes are clocked while the
-- chip select is low is the input `Wire`, and the result lists the bytes that are put into SPDR.
-- The size of the AVR's own part of the report descriptor, which macros of LUFA build, is the
-- parameter `control_size`, and what LUFA says of the USB state is part of `Wire`.
pub mod Answer
pub mod Receive
pub mod Describe
use mymouse.Base.{
  ℕ, zero, suc, ◌+◌, ◌-◌, ◌%◌, Bool, true, false, List, [], ◌∷◌, ◌++◌, ◌&&◌, not, ltb, leb, ◌==◌,
  if◌then◌else◌, get_or, set, take,
}
use mymouse.Avr.Crc.{Ibutton}

-- USB_DeviceState: the states that the code tells apart.
pub data UsbState : Type 0 where
  unattached configured other_state : UsbState

abbrev pub is_unattached : UsbState → Bool
is_unattached unattached = true
is_unattached _ = false

abbrev pub is_configured : UsbState → Bool
is_configured configured = true
is_configured _ = false

-- Where `rx_data` points to. Before the first command it is null, with `num_rx` 0.
pub data Buffer : Type 0 where
  null rx_buf hid_report_desc : Buffer

pub record Slave : Type 0 where
  pub enabled : Bool  -- SPCR, SPE
  pub num_tx : ℕ
  pub num_rx : ℕ
  pub tx_data : List ℕ
  pub rx_data : Buffer
  pub tx_idx : ℕ
  pub rx_idx : ℕ
  pub tx_crc : ℕ
  pub rx_bytes : List ℕ  -- rx_buf
  pub descriptor : List ℕ  -- hid_report_desc from the AVR's own part on
  pub report_length : ℕ  -- HIDReportLength
  pub usb_inits : ℕ  -- calls of USB_Init
  pub reports : List (List ℕ)  -- what went to the endpoint

pub record Wire : Type 0 where
  pub cs_high : Bool
  pub handshake : ℕ  -- the first byte, 0 after a timeout
  pub command : ℕ  -- the second byte, 0 after a timeout
  pub data_bytes : List ℕ  -- those clocked until the chip select goes high
  pub late : Bool  -- the chip select goes high inside of `transceive_byte`
  pub usb : UsbState
  pub endpoint_ready : Bool  -- Endpoint_IsReadWriteAllowed

abbrev pub device_id_response : List ℕ
device_id_response = 0x1E ∷ 0x93 ∷ 0x89 ∷ []

abbrev pub rx_buf_size : ℕ
rx_buf_size = 32

abbrev pub report_descriptor_max_size : ℕ
report_descriptor_max_size = 256

-- The buffer that `rx_data` points to.
abbrev pub received : Slave → List ℕ
received s = elim (s.rx_data) [ null ↦ [] | rx_buf ↦ s.rx_bytes | hid_report_desc ↦ s.descriptor ]

abbrev pub write_received : ℕ → ℕ → Slave → Slave
write_received i value s = elim (s.rx_data) [
  | null ↦ s
  | rx_buf ↦ record s { rx_bytes = set s.rx_bytes i value }
  | hid_report_desc ↦ record s { descriptor = set s.descriptor i value }
]

unfoldable pub store_rx_byte : ℕ → Slave → Slave
store_rx_byte value s =
    if ltb s.rx_idx s.num_rx
    then (record (write_received s.rx_idx value s) { rx_idx = s.rx_idx + 1 })
    else s

-- reporting.c.
unfoldable pub send_report : UsbState → Bool → List ℕ → Slave → Slave
send_report usb ready bytes s =
    if is_configured usb
    then (if ready then (record s { reports = s.reports ++ bytes ∷ [] }) else s)
    else s

module _ (ibutton : Ibutton) where
  open ibutton use {crc_ibutton_update}

  unfoldable pub get_next_tx_byte : Slave → Slave × ℕ
  get_next_tx_byte s =
      if ltb s.tx_idx s.num_tx
      then (let next_byte = get_or s.tx_data s.tx_idx 0 in
          (
            record s { tx_idx = s.tx_idx + 1; tx_crc = crc_ibutton_update s.tx_crc next_byte },
            next_byte,
          ))
      else (s, s.tx_crc)

  -- The main data transfer loop: the state, and the bytes put into SPDR.
  unfoldable pub transfer : List ℕ → Slave → Slave × List ℕ
  transfer [] s = (s, [])
  transfer (byte ∷ bytes) s =
      let (s₁, tx) = get_next_tx_byte s in
      let (s₂, txs) = transfer bytes (store_rx_byte byte s₁) in (s₂, tx ∷ txs)

module _ (control_size : ℕ) where
  unfoldable pub set_hid_report_size : UsbState → ℕ → Slave → Slave
  set_hid_report_size usb size s =
      if is_unattached usb && leb (control_size + size) report_descriptor_max_size
      then (record s { report_length = control_size + size })
      else s

  unfoldable pub get_hid_report_descriptor_buffer : UsbState → Slave → Slave
  get_hid_report_descriptor_buffer usb s =
      if is_unattached usb
      then (record s {
        num_rx = (report_descriptor_max_size - control_size) % 256;
        rx_data = hid_report_desc;
      })
      else (record s { num_rx = 0 })

  -- With the first byte to transmit.
  unfoldable pub prepare_response : UsbState → ℕ → Slave → Slave × ℕ
  prepare_response usb command_id s =
      if command_id == 0x06
      then (record s { tx_data = 0x93 ∷ 0x89 ∷ []; num_tx = 2 }, get_or device_id_response 0 0)
      else (if command_id == 0x08
          then (get_hid_report_descriptor_buffer usb s, 0)
          else (if command_id == 0x09
              then (record s { rx_data = rx_buf; num_rx = 1 }, 0)
              else (if command_id == 0x0A
                  then (record s { rx_data = rx_buf; num_rx = rx_buf_size }, 0)
                  else (s, 0))))

  -- With `rx_idx` bytes received.
  unfoldable pub process_transaction : UsbState → Bool → ℕ → Slave → Slave
  process_transaction usb ready command_id s =
      if command_id == 0x08
      then set_hid_report_size usb s.rx_idx s
      else (if command_id == 0x09
          then (if get_or (received s) 0 0 == 0
              then s
              else (record s { usb_inits = s.usb_inits + 1 }))
          else (if command_id == 0x0A
              then send_report usb ready (take s.rx_idx (received s)) s
              else s))

  -- What `spi_task` does when the chip select is high again.
  unfoldable pub finish : Wire → Slave → Slave
  finish w s =
      if not (s.rx_idx == 0) && (s.tx_idx == s.num_tx)
      then process_transaction w.usb w.endpoint_ready w.command s
      else s

  module _ (ibutton : Ibutton) where
    open ibutton use {crc_ibutton_update}

    -- The cleanup.
    abbrev pub cleanup : Slave → Slave
    cleanup s = record s { num_tx = 0; num_rx = 0; tx_idx = 0; rx_idx = 0 }

    -- `spi_task` after the command byte.
    unfoldable pub transaction : Wire → Slave → Slave × List ℕ
    transaction w s =
        let (s₁, first_tx_byte) = prepare_response w.usb w.command s in
        let s₂ = record s₁ { tx_crc = crc_ibutton_update 0 first_tx_byte } in
        let (s₃, txs) = transfer ibutton w.data_bytes s₂ in
        let s₄ = if w.late then (get_next_tx_byte ibutton s₃).0 else s₃ in
        (cleanup (finish w s₄), first_tx_byte ∷ txs)

    unfoldable pub spi_task : Wire → Slave → Slave × List ℕ
    spi_task w s =
        if not s.enabled
        then ((if w.cs_high then (record s { enabled = true }) else s), [])
        else (if w.cs_high
            then (s, [])
            else (if not (w.handshake == 0x42)
                then (s, 0x43 ∷ 0 ∷ [])
                else (if w.command == 0
                    then (s, 0x43 ∷ [])
                    else (let (s', txs) = transaction w s in (s', 0x43 ∷ txs)))))
