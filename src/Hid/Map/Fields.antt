-- ===== src/Hid/Map/Fields.antt =====
-- The report descriptor describes the struct of the report.
use mymouse.Base.{
  ◌+◌, ◌*◌, ◌/◌, ◌%◌, length, ◌≡◌, refl, List, [], ◌∷◌, some, none, true, false, Bool, ◌==◌,
  if◌then◌else◌, ◌<◌, ◌&&◌, not, ℕ, arith,
}
use mymouse.Base.Int.{pos, negsuc, signed}
use mymouse.Hid.Report.{Report, IsReport, to_bytes}
use mymouse.Hid.Map.{hid_report_map, hid_report_id}
use mymouse.Hid.Map.Host.{
  Field, Control, take_items, items_of, host_of, ranged, read_report, number,
}

abbrev pub the_fields : List Field
the_fields =
    record { page = 0x09; usage = 1; offset = 0; bits = 1; low = pos 0; high = pos 1 }
    ∷ record { page = 0x09; usage = 2; offset = 1; bits = 1; low = pos 0; high = pos 1 }
    ∷ record { page = 0x09; usage = 3; offset = 2; bits = 1; low = pos 0; high = pos 1 }
    ∷ record { page = 0x01; usage = 0x38; offset = 8; bits = 8; low = negsuc 126; high = pos 127 }
    ∷ record {
      page = 0x01;
      usage = 0x30;
      offset = 16;
      bits = 12;
      low = negsuc 2046;
      high = pos 2047;
    }
    ∷ record {
      page = 0x01;
      usage = 0x31;
      offset = 28;
      bits = 12;
      low = negsuc 2046;
      high = pos 2047;
    }
    ∷ []

-- The values of a report's fields. The ranges are those that the comments of the source give, -127 to
-- 127 and -2047 to 2047.
abbrev pub values_of : Report → List Control
values_of r =
    record { page = 0x09; usage = 1; value = some (pos r.left) }
    ∷ record { page = 0x09; usage = 2; value = some (pos r.right) }
    ∷ record { page = 0x09; usage = 3; value = some (pos r.middle) }
    ∷ record {
      page = 0x01;
      usage = 0x38;
      value = if r.wheel_delta == 0x80 then none else some (signed 8 r.wheel_delta);
    }
    ∷ record {
      page = 0x01;
      usage = 0x30;
      value = if r.x_delta == 0x800 then none else some (signed 12 r.x_delta);
    }
    ∷ record {
      page = 0x01;
      usage = 0x31;
      value = if r.y_delta == 0x800 then none else some (signed 12 r.y_delta);
    }
    ∷ []

pub map_fields : (host_of hid_report_map).fields ≡ the_fields
unfolding host_of take_items items_of hid_report_map
map_fields = refl

pub map_shape :
    ((host_of hid_report_map).report_id ≡ hid_report_id)
    × ((host_of hid_report_map).offset ≡ 40)
    × ((host_of hid_report_map).reserved_id ≡ false)
unfolding host_of take_items items_of hid_report_map
map_shape = (refl, refl, refl)

number-to_bytes :
    (r : Report)
    → IsReport r
    → number (to_bytes r)
      ≡ r.left
        + 2 * r.right
        + 4 * r.middle
        + 8 * r.unused
        + 256 * r.wheel_delta
        + 65536 * r.x_delta
        + 268435456 * r.y_delta
unfolding to_bytes
number-to_bytes r h = omega arith

length-to_bytes : (r : Report) → length (to_bytes r) ≡ 5
unfolding to_bytes
length-to_bytes r = refl

module _ (r : Report) (h : IsReport r) where
  bits_of :
      let n = number (to_bytes r) in
      (n / 1 % 2 ≡ r.left)
      × (n / 2 % 2 ≡ r.right)
      × (n / 4 % 2 ≡ r.middle)
      × (n / 256 % 256 ≡ r.wheel_delta)
      × (n / 65536 % 4096 ≡ r.x_delta)
      × (n / 268435456 % 4096 ≡ r.y_delta)
  bits_of = omega (arith, number-to_bytes r h)

  bit_in_range : (n : ℕ) → n < 2 → ranged (pos 0) (pos 1) (pos n) ≡ some (pos n)
  bit_in_range n l = ground (arith, l)

  wheel_in_range :
      ranged (negsuc 126) (pos 127) (signed 8 r.wheel_delta)
      ≡ (if r.wheel_delta == 0x80 then none else some (signed 8 r.wheel_delta))
  wheel_in_range = ground (arith, h.wheel_fits)

  delta_in_range :
      (n : ℕ)
      → n < 4096
      → ranged (negsuc 2046) (pos 2047) (signed 12 n)
        ≡ (if n == 0x800 then none else some (signed 12 n))
  delta_in_range n l = ground (arith, l)

  -- A host that knows the report descriptor, whether it refuses reserved ids or not, reads every
  -- packet that starts with the report's id, and finds in it exactly the three buttons, the wheel
  -- with its sign, and the two movements with theirs, whatever the report is whose fields fit their
  -- widths; but the one value of the wheel and of each movement that is below the range of the
  -- descriptor, -128 and -2048, is null.
  pub read_report-to_bytes :
      (strict : Bool)
      → read_report strict hid_report_map (hid_report_id ∷ to_bytes r) ≡ some (values_of r)
  unfolding read_report
  read_report-to_bytes strict =
      let (b₀, b₁, b₂, b₃, b₄, b₅) = bits_of in
      let shape = map_shape in
      let accepted : not (strict && false) ≡ true = ground arith in
      rw
        (
          shape.0,
          shape.1,
          shape.2,
          accepted,
          map_fields,
          length-to_bytes r,
          b₀,
          b₁,
          b₂,
          b₃,
          b₄,
          b₅,
          bit_in_range r.left h.left_fits,
          bit_in_range r.right h.right_fits,
          bit_in_range r.middle h.middle_fits,
          wheel_in_range,
          delta_in_range r.x_delta h.x_fits,
          delta_in_range r.y_delta h.y_fits,
        )
        refl
