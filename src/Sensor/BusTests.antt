-- ===== src/Sensor/BusTests.antt =====
-- The sensor's transactions over the simple mutex.
use mymouse.Base.{◌≡◌, refl, true, false, none, some, eio, [], ◌∷◌}
use mymouse.Platform.Spi.{Config}
use mymouse.Platform.Spi.Simple.{simple, simple-IsMutex, simple-IsSem}
use mymouse.Platform.Spi.Lock.{transfers}
use mymouse.Sensor.Transfer.{Adns, adns7530_reg_write}
use mymouse.Sensor.Bus.{IsReady, adns7530_reg_write-eio}

abbrev config : Config
config = record {
  address = 100;
  settings = record { op_mode = 3; bit_order = 0; freq = 8 };
  is_const = true;
}

abbrev at_rest : Adns simple
at_rest = record {
  spi = record {
    mutex = none;
    sem = 0;
    in_spi_isr = false;
    prev_config = none;
    callback = none;
    hardware = record { op_mode = 0; bit_order = 0; freq = 1 };
    actions = [];
  };
  error = none;
  rx_len = 0;
  rx_buf = 0;
  memory = λ a. 0;
}

at_rest-IsReady : IsReady simple simple-IsMutex simple-IsSem 2000 500 config 4 1 at_rest
at_rest-IsReady = record { lock_free = refl; not_given = refl }

adns7530_reg_write-eio_example :
    ((adns7530_reg_write simple 2000 500 config 4 1 0x20000008 0x3C 0x27 1 at_rest).1 ≡ some eio)
    × (transfers
          (adns7530_reg_write simple 2000 500 config 4 1 0x20000008 0x3C 0x27 1
            at_rest).0.spi.actions
        ≡ (record { tx_buf = 0x20000008; tx_len = 2; rx_buf = 0; rx_len = 0 }) ∷ [])
adns7530_reg_write-eio_example =
    adns7530_reg_write-eio simple simple-IsMutex simple-IsSem 2000 500 config 4 1 0x20000008 0x3C
      0x27 1 at_rest at_rest-IsReady refl
