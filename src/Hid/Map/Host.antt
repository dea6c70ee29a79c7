-- ===== src/Hid/Map/Host.antt =====
-- How a host reads a report by a report descriptor: the short items of the USB HID specification
-- (Device Class Definition for HID 1.11, sections 5.2, 6.2.2 and 8), independent of the firmware.
use mymouse.Base.{
  ℕ, zero, suc, ◌+◌, ◌-◌, ◌*◌, ◌/◌, ◌%◌, ◌^◌, Bool, true, false, List, [], ◌∷◌, ◌++◌, Option, none,
  some, ◌||◌, ◌&&◌, not, length, ◌==◌, if◌then◌else◌,
}
use mymouse.Base.Int.{ℤ, pos, negsuc, signed, ltb_ℤ}

-- An item: its tag with its type, which is the prefix without the size, the number of bytes of its
-- data, and its data.
pub record Item : Type 0 where
  pub prefix : ℕ
  pub size : ℕ
  pub value : ℕ

abbrev data_size : ℕ → ℕ
data_size prefix = if prefix % 4 == 3 then 4 else prefix % 4

-- The item that is being read, how many bytes of it are missing, and the items before it.
pub record Reader : Type 0 where
  pub item : Item
  pub missing : ℕ
  pub done : List Item

abbrev pub finish : Item → ℕ → List Item → Reader
finish item missing done = record {
  item = item;
  missing = missing;
  done = if missing == 0 then done ++ item ∷ [] else done;
}

abbrev pub read_byte : Reader → ℕ → Reader
read_byte r b =
    if r.missing == 0
    then finish (record { prefix = b / 4 * 4; size = data_size b; value = 0 }) (data_size b) r.done
    else finish (record (r.item) { value = r.item.value + b * 256 ^ (r.item.size - r.missing) })
        (r.missing - 1) r.done

unfoldable pub read_bytes : Reader → List ℕ → Reader
read_bytes r [] = r
read_bytes r (b ∷ bs) = read_bytes (read_byte r b) bs

abbrev pub start : Reader
start = record { item = record { prefix = 0; size = 0; value = 0 }; missing = 0; done = [] }

unfoldable pub items_of : List ℕ → List Item
unfolding read_bytes
items_of bytes = (read_bytes start bytes).done

-- A control of the report: its usage page and usage, where its bits are, and the range of its values.
pub record Field : Type 0 where
  pub page : ℕ
  pub usage : ℕ
  pub offset : ℕ
  pub bits : ℕ
  pub low : ℤ
  pub high : ℤ

-- The global items, the local items, and the controls so far; and whether a Report ID of 0 came, which
-- is reserved. The maximum is the item as it came.
pub record Host : Type 0 where
  pub page : ℕ
  pub logical_min : ℤ
  pub max_size : ℕ
  pub max_value : ℕ
  pub bits : ℕ
  pub count : ℕ
  pub report_id : ℕ
  pub reserved_id : Bool
  pub usages : List ℕ
  pub usage_min : ℕ
  pub offset : ℕ
  pub fields : List Field

-- The usages from `u` on, `n` of them.
abbrev usage_range : ℕ → ℕ → List ℕ
usage_range u zero = []
usage_range u (suc n) = u ∷ usage_range (u + 1) n

-- The last usage goes to all the controls that are left.
abbrev keep_last : ℕ → List ℕ → List ℕ
keep_last u [] = u ∷ []
keep_last u (v ∷ us) = v ∷ us

-- The data of an item as a number with its sign.
abbrev item_value : ℕ → ℕ → ℤ
item_value size value = signed (8 * size) value

-- The maximum has a sign if the minimum is negative.
abbrev is_negative : ℤ → Bool
is_negative (pos n) = false
is_negative (negsuc n) = true

abbrev logical_max : Host → ℤ
logical_max h =
    if is_negative h.logical_min then item_value h.max_size h.max_value else pos h.max_value

-- The next controls of an input; with no usages they are padding.
add_fields : ℕ → List ℕ → Host → Host
add_fields zero us h = h
add_fields (suc n) [] h = add_fields n [] (record h { offset = h.offset + h.bits })
add_fields (suc n) (u ∷ us) h = add_fields n (keep_last u us) (record h {
  offset = h.offset + h.bits;
  fields =
      h.fields
      ++ record {
        page = h.page;
        usage = u;
        offset = h.offset;
        bits = h.bits;
        low = h.logical_min;
        high = logical_max h;
      }
        ∷ [];
})

-- The local items are dropped at each main item. The low bit of an input says that it is constant.
input : ℕ → Host → Host
unfolding add_fields
input flags h = record (add_fields h.count (if flags % 2 == 1 then [] else h.usages) h) {
  usages = [];
  usage_min = 0;
}

take_item : Item → Host → Host
unfolding input
take_item i h =
    if i.prefix == 0x04
    then record h { page = i.value }
    else if i.prefix == 0x14
    then record h { logical_min = item_value i.size i.value }
    else if i.prefix == 0x24
    then record h { max_size = i.size; max_value = i.value }
    else if i.prefix == 0x74
    then record h { bits = i.value }
    else if i.prefix == 0x84
    then record h { report_id = i.value; reserved_id = (i.value == 0) || h.reserved_id }
    else if i.prefix == 0x94
    then record h { count = i.value }
    else if i.prefix == 0x08
    then record h { usages = h.usages ++ i.value ∷ [] }
    else if i.prefix == 0x18
    then record h { usage_min = i.value }
    else if i.prefix == 0x28
    then record h { usages = usage_range h.usage_min (i.value + 1 - h.usage_min) }
    else if i.prefix == 0x80
    then input i.value h
    else if i.prefix == 0xA0 || i.prefix == 0xC0
    then record h { usages = []; usage_min = 0 }
    else h

unfoldable pub take_items : List Item → Host → Host
unfolding take_item
take_items [] h = h
take_items (i ∷ is) h = take_items is (take_item i h)

abbrev pub blank : Host
blank = record {
  page = 0;
  logical_min = pos 0;
  max_size = 0;
  max_value = 0;
  bits = 0;
  count = 0;
  report_id = 0;
  reserved_id = false;
  usages = [];
  usage_min = 0;
  offset = 0;
  fields = [];
}

unfoldable pub host_of : List ℕ → Host
host_of descriptor = take_items (items_of descriptor) blank

-- The bytes as one number, the first byte lowest.
abbrev pub number : List ℕ → ℕ
number [] = 0
number (b ∷ bs) = b + 256 * number bs

-- What the host learns: the usage page and the usage of a control, and its value, which is null if it
-- is out of range.
pub record Control : Type 0 where
  pub page : ℕ
  pub usage : ℕ
  pub value : Option ℤ

abbrev pub ranged : ℤ → ℤ → ℤ → Option ℤ
ranged low high v = if ltb_ℤ v low || ltb_ℤ high v then none else some v

abbrev pub control : ℕ → Field → Control
control n f =
    let raw = n / 2 ^ f.offset % 2 ^ f.bits in
    record {
      page = f.page;
      usage = f.usage;
      value = ranged f.low f.high (if is_negative f.low then signed f.bits raw else pos raw);
    }

abbrev pub controls : ℕ → List Field → List Control
controls n [] = []
controls n (f ∷ fs) = control n f ∷ controls n fs

-- A packet starts with the id of its report, and it has as many bits as the controls take. A strict
-- host refuses a descriptor with the reserved id.
unfoldable pub read_report : Bool → List ℕ → List ℕ → Option (List Control)
read_report strict descriptor [] = none
read_report strict descriptor (id ∷ bytes) =
    let h = host_of descriptor in
    if not (strict && h.reserved_id) && h.report_id == id && h.offset == 8 * length bytes
    then some (controls (number bytes) h.fields)
    else none
