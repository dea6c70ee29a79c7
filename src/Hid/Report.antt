-- ===== src/Hid/Report.antt =====
-- interface/hid/hid_report_struct.h, and the persistent bytes of interface/hid/hid_report_map.c.
-- The packed struct is laid out as the little-endian targets do: bit fields from the lowest bit.
use mymouse.Base.{
  ℕ, suc, ◌+◌, ◌*◌, ◌/◌, ◌%◌, ◌<◌, ◌≡◌, List, [], ◌∷◌, ◌==◌, if◌then◌else◌, arith, get_or,
}
use mymouse.Base.Bits.{test_bit}

pub record Report : Type 0 where
  pub left : ℕ  -- 1 bit
  pub right : ℕ  -- 1 bit
  pub middle : ℕ  -- 1 bit
  pub unused : ℕ  -- 5 bits
  pub wheel_delta : ℕ  -- uint8_t
  pub x_delta : ℕ  -- 12 bits
  pub y_delta : ℕ  -- 12 bits

abbrev pub empty : Report
empty = record {
  left = 0;
  right = 0;
  middle = 0;
  unused = 0;
  wheel_delta = 0;
  x_delta = 0;
  y_delta = 0;
}

-- Every field fits its width.
pub record IsReport (r : Report) : Type 0 where
  pub left_fits : r.left < 2
  pub right_fits : r.right < 2
  pub middle_fits : r.middle < 2
  pub unused_fits : r.unused < 32
  pub wheel_fits : r.wheel_delta < 256
  pub x_fits : r.x_delta < 4096
  pub y_fits : r.y_delta < 4096

-- `buttons.v`.
abbrev pub buttons_v : Report → ℕ
buttons_v r = r.left + 2 * r.right + 4 * r.middle + 8 * r.unused

-- The five bytes of the struct.
unfoldable pub to_bytes : Report → List ℕ
to_bytes r =
    buttons_v r
    ∷ r.wheel_delta
    ∷ (r.x_delta % 256)
    ∷ (r.x_delta / 256 + 16 * (r.y_delta % 16))
    ∷ (r.y_delta / 16)
    ∷ []

unfoldable pub of_bytes : List ℕ → Report
of_bytes bs =
    let v = get_or bs 0 0 in
    record {
      left = v % 2;
      right = v / 2 % 2;
      middle = v / 4 % 2;
      unused = v / 8 % 32;
      wheel_delta = get_or bs 1 0;
      x_delta = get_or bs 2 0 + 256 * (get_or bs 3 0 % 16);
      y_delta = get_or bs 3 0 / 16 + 16 * get_or bs 4 0;
    }

abbrev pub hid_report_persistent_bytes : ℕ
hid_report_persistent_bytes = 0x01

-- The loop over the bytes, at index `i`.
unfoldable pub clear_from : ℕ → List ℕ → List ℕ
clear_from i [] = []
clear_from i (b ∷ bs) =
    (if test_bit hid_report_persistent_bytes i == 1 then b else 0) ∷ clear_from (suc i) bs

unfoldable pub clear_non_persistent_data_in_report : Report → Report
unfolding clear_from to_bytes of_bytes test_bit
clear_non_persistent_data_in_report r = of_bytes (clear_from 0 (to_bytes r))

-- The fields can be had back from the bytes of the struct.
of_bytes-to_bytes : (r : Report) → IsReport r → of_bytes (to_bytes r) ≡ r
unfolding of_bytes to_bytes
of_bytes-to_bytes r h = ground arith

-- Clearing works on the bytes, and it sets the three movement fields to 0 and keeps every bit of
-- the buttons' byte, in a report whose fields fit their widths.
pub clear_lem :
    (r : Report)
    → IsReport r
    → clear_non_persistent_data_in_report r ≡ record r { wheel_delta = 0; x_delta = 0; y_delta = 0 }
unfolding clear_non_persistent_data_in_report
clear_lem r h = ground arith
