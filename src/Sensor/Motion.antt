-- ===== src/Sensor/Motion.antt =====
-- The motion pin of app-nrf/src/services/hid/source/opt_sensor.c: its edge callback, and the steps
-- that the source makes with the edge interrupts of gpio.c and the thread of collector.c. The pin
-- and the id of the source come from the device tree and the linker, and are parameters.
pub mod Apart
pub mod Irq
pub mod Steps
pub mod Kept
mod Tests
use mymouse.Base.{ℕ, ◌^◌, ◌<◌, ◌≡◌, Bool, true, false, not, some, if◌then◌else◌, ◌||◌}
use mymouse.Base.Int.{ℤ}
use mymouse.Base.Bits.{test_bit}
use mymouse.Bitmask.{Ffs, bit_as_bool}
use mymouse.Hid.Report.{Report}
use mymouse.Hid.Collector.{KEvent, Collector, notify_data_available}
use mymouse.Platform.Gpio
use mymouse.Platform.Gpio.{Gpio, irq_handler, interrupts_from}
use mymouse.Sensor.{MotionBurst, SensorData, report_filler}

-- The callbacks of the edge interrupts: this source's, and those of other code.
pub data GpioCb : Type 0 where
  hid_src_opt_sensor_gpio_cb : GpioCb
  other_cb : ℕ → GpioCb

module _ (kernel : KEvent) where
  pub record Motion : Type 0 where
    pub gpio : Gpio GpioCb
    pub collector : Collector kernel
    pub sensor : SensorData
    pub report : Report

  abbrev pub with_gpio : Motion → Gpio GpioCb → Motion
  with_gpio m g = record m { gpio = g }

  module _ (ffs : Ffs) (source : ℤ) where
    abbrev pub notify : Motion → Motion
    notify m = record m { collector = notify_data_available kernel source m.collector }

    -- The motion pin is active low.
    unfoldable pub gpio_cb : ℕ → Bool → Motion → Motion
    gpio_cb pin new_value m =
        let m' = if not new_value then notify m else m in
        record m' { gpio = Gpio.set_edge_cb ffs pin new_value hid_src_opt_sensor_gpio_cb m'.gpio }

    -- `level` is what the pin reads.
    unfoldable pub init : ℕ → Bool → Motion → Motion
    init mot_pin level m = gpio_cb mot_pin level m

    -- The filler with what it does to the collector.
    unfoldable pub fill : ℕ → MotionBurst → Bool → Motion → Motion
    fill threshold burst mot_pin m =
        let (sensor, report, again) = report_filler threshold burst mot_pin m.sensor m.report in
        let m' = record m { sensor = sensor; report = report } in if again then notify m' else m'

    module _ (others : ℕ → ℕ → Bool → Motion → Motion) where
      abbrev pub call : GpioCb → ℕ → Bool → Motion → Motion
      call hid_src_opt_sensor_gpio_cb pin new_value m = gpio_cb pin new_value m
      call (other_cb i) pin new_value m = others i pin new_value m
