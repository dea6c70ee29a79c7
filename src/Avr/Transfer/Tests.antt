-- ===== src/Avr/Transfer/Tests.antt =====
-- A handshake that the AVR answers, over the simple mutex: the id is asked for and comes undamaged.
use mymouse.Base.{◌≡◌, refl, arith, true, false, none, ok, [], ◌∷◌}
use mymouse.Platform.Spi.{Config, TransferSpec}
use mymouse.Platform.Spi.Lock.{transfers}
use mymouse.Platform.Spi.Simple.{simple, simple-IsMutex, simple-IsSem}
use mymouse.Avr.Crc.{update_crc, shift_all, shift_out}
use mymouse.Avr.Master.{check_crc}
use mymouse.Avr.Transfer.{Link, handshake, transceive}
use mymouse.Avr.Transfer.Bus.{IsReady, transceive-transfers}

abbrev config : Config
config = record {
  address = 200;
  settings = record { op_mode = 3; bit_order = 0; freq = 8 };
  is_const = true;
}

abbrev at_rest : Link simple
at_rest = record {
  spi = record {
    mutex = none;
    sem = 0;
    in_spi_isr = false;
    prev_config = none;
    callback = none;
    hardware = record { op_mode = 0; bit_order = 0; freq = 1 };
    actions = [];
  };
  error = none;
  spec = none;
}

abbrev id_spec : TransferSpec
id_spec = record { tx_buf = 0; tx_len = 0; rx_buf = 0x20000020; rx_len = 4 }

at_rest-IsReady :
    IsReady simple simple-IsMutex simple-IsSem 2000 500 config 5 1 0x20000008 0x20000010 0x43
      id_spec at_rest
at_rest-IsReady = record {
  lock_free = refl;
  not_given = refl;
  tx_good = refl;
  rx_good = refl;
  payload_tx_good = refl;
  payload_rx_good = refl;
}

transceive-transfers_example :
    let sent =
      transceive simple 2000 500 config 5 1 0x20000008 0x20000010 id_spec 0x43
        (0x1E ∷ 0x93 ∷ 0x89 ∷ 0x38 ∷ [])
        2
        at_rest in
    (sent.1 ≡ ok 0)
    × (transfers sent.0.spi.actions
        ≡ id_spec ∷ handshake simple 2000 500 config 5 1 0x20000008 0x20000010 ∷ [])
unfolding check_crc update_crc shift_all shift_out
transceive-transfers_example =
    transceive-transfers simple simple-IsMutex simple-IsSem 2000 500 config 5 1 0x20000008
      0x20000010 0x43 id_spec (0x1E ∷ 0x93 ∷ 0x89 ∷ 0x38 ∷ []) 2 at_rest at_rest-IsReady refl
      (omega arith)
