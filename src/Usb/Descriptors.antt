-- ===== src/Usb/Descriptors.antt =====
-- app-avr/src/descriptors.c: the descriptors that the host asks for, and in which memory the code says
-- that they are. Sizes of structures come from LUFA and are arguments.
use mymouse.Base.{ℕ, ◌≡◌, Bool, true, false, not, Option, none, some, ◌==◌, if◌then◌else◌, arith}

pub data Memory : Type 0 where
  memspace_flash memspace_ram : Memory

-- The high byte of wValue.
pub data DescriptorType : Type 0 where
  dtype_device dtype_configuration dtype_string hid_dtype_hid hid_dtype_report : DescriptorType
  dtype_other : ℕ → DescriptorType

-- What an address points to; `hid_mouse_hid` is a field of `configuration_descriptor`.
pub data Object : Type 0 where
  device_descriptor configuration_descriptor language_string manufacturer_string : Object
  product_string hid_mouse_hid hid_report_desc : Object

-- Where the linker puts the object: in flash what is declared with PROGMEM.
abbrev pub home : Object → Memory
home device_descriptor = memspace_flash
home language_string = memspace_flash
home manufacturer_string = memspace_flash
home product_string = memspace_flash
home configuration_descriptor = memspace_ram
home hid_mouse_hid = memspace_ram
home hid_report_desc = memspace_ram

pub record Descriptor : Type 0 where
  pub address : Option Object
  pub size : ℕ
  pub space : Memory

-- The sizes of the objects, with the field HIDReportLength for the report descriptor.
module _ (size_of : Object → ℕ) where
  abbrev pub in_flash : Object → Descriptor
  in_flash o = record { address = some o; size = size_of o; space = memspace_flash }

  abbrev pub in_ram : Object → Descriptor
  in_ram o = record { address = some o; size = size_of o; space = memspace_ram }

  abbrev pub no_descriptor : Descriptor
  no_descriptor = record { address = none; size = 0; space = memspace_flash }

  -- By the string's number, the low byte of wValue.
  unfoldable pub get_string : ℕ → Descriptor
  get_string n =
      if n == 0
      then in_flash language_string
      else (if n == 1
          then in_flash manufacturer_string
          else (if n == 2 then in_flash product_string else no_descriptor))

  unfoldable pub get_descriptor : DescriptorType → ℕ → Descriptor
  get_descriptor dtype_device n = in_flash device_descriptor
  get_descriptor dtype_configuration n = in_ram configuration_descriptor
  get_descriptor dtype_string n = get_string n
  get_descriptor hid_dtype_hid n = in_flash hid_mouse_hid
  get_descriptor hid_dtype_report n = in_ram hid_report_desc
  get_descriptor (dtype_other d) n = no_descriptor

  abbrev pub is_hid : DescriptorType → Bool
  is_hid hid_dtype_hid = true
  is_hid _ = false

  abbrev pub same_memory : Memory → Memory → Bool
  same_memory memspace_flash memspace_flash = true
  same_memory memspace_ram memspace_ram = true
  same_memory memspace_flash memspace_ram = false
  same_memory memspace_ram memspace_flash = false

  -- A descriptor that the code finds is read from the memory that it is in, unless the host asks for
  -- the HID class descriptor, which is read from flash although it is in RAM.
  get_descriptor-home :
      (t : DescriptorType) (n : ℕ) (o : Object)
      → (get_descriptor t n).address ≡ some o
      → same_memory (get_descriptor t n).space (home o) ≡ not (is_hid t)
  unfolding get_descriptor get_string
  get_descriptor-home dtype_device n o h = ground (arith, h)
  get_descriptor-home dtype_configuration n o h = ground (arith, h)
  get_descriptor-home dtype_string n o h = ground (arith, h)
  get_descriptor-home hid_dtype_hid n o h = ground (arith, h)
  get_descriptor-home hid_dtype_report n o h = ground (arith, h)
  get_descriptor-home (dtype_other d) n o h = ground (arith, h)
