-- ===== src/Hid/Encoder.antt =====
-- app-nrf/src/services/hid/source/encoder.c. `delta` and the static `acc` are `int`s that stay
-- small (the decoder reports a few counts at a time), so they are integers without a wrap.
pub mod Laws
use mymouse.Base.{zero, Bool, true, false, not}
use mymouse.Base.Int.{ℤ, pos, ◌+ℤ◌, is_zero, quot, rem, wrap}
use mymouse.Hid.Report.{Report}

pub record Encoder : Type 0 where
  pub delta : ℤ
  pub acc : ℤ

abbrev pub initial : Encoder
initial = record { delta = pos 0; acc = pos 0 }

unfoldable pub report_filler : Encoder → Report → Encoder × Report
report_filler s report =
    (record s { delta = pos 0 }, record report { wheel_delta = wrap 8 s.delta })

-- The flag says that `hid_collector_notify_data_available` is called.
unfoldable pub qdec_data_callback : Encoder → ℤ → Encoder × Bool
qdec_data_callback s value =
    let sum = s.acc +ℤ value in
    (record { delta = quot sum 2; acc = rem sum 2 }, not (is_zero (quot sum 2)))
