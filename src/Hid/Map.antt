-- ===== src/Hid/Map.antt =====
-- interface/hid/hid_report_map.c: the report descriptor that tells a host how to read a report.
pub mod Host
pub mod Fields
pub mod Joined
mod Tests
use mymouse.Base.{ℕ, List, [], ◌∷◌, ◌++◌}

abbrev pub hid_report_id : ℕ
hid_report_id = 1

-- Report ID 1: mouse buttons, scroll and movement. One line of the source is one line here.
unfoldable pub hid_report_map : List ℕ
hid_report_map =
    0x05 ∷ 0x01 ∷ 0x09 ∷ 0x02 ∷ 0xA1 ∷ 0x01 ∷ 0x85 ∷ hid_report_id ∷ 0x09 ∷ 0x01 ∷ 0xA1 ∷ 0x00
    ∷ 0x95 ∷ 0x03 ∷ 0x75 ∷ 0x01 ∷ 0x05 ∷ 0x09 ∷ 0x19 ∷ 0x01 ∷ 0x29 ∷ 0x03 ∷ 0x15 ∷ 0x00 ∷ 0x25
    ∷ 0x01 ∷ 0x81 ∷ 0x02 ∷ 0x95 ∷ 0x01 ∷ 0x75 ∷ 0x05 ∷ 0x81 ∷ 0x01 ∷ 0x95 ∷ 0x01 ∷ 0x75 ∷ 0x08
    ∷ 0x05 ∷ 0x01 ∷ 0x09 ∷ 0x38 ∷ 0x15 ∷ 0x81 ∷ 0x25 ∷ 0x7F ∷ 0x81 ∷ 0x06 ∷ 0x95 ∷ 0x02 ∷ 0x75
    ∷ 0x0C ∷ 0x05 ∷ 0x01 ∷ 0x09 ∷ 0x30 ∷ 0x09 ∷ 0x31 ∷ 0x16 ∷ 0x01 ∷ 0xF8 ∷ 0x26 ∷ 0xFF ∷ 0x07
    ∷ 0x81 ∷ 0x06 ∷ 0xC0 ∷ 0xC0 ∷ []
