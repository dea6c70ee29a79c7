-- ===== src/Lib.antt =====
-- Verification of the mouse firmware: the C code for the nRF microcontroller (app-nrf) and the AVR
-- USB controller (app-avr), and the interface that they share (interface).
--
-- The input path. The edge interrupts of the GPIO driver (app-nrf/src/platform/gpio.c) go through
-- the debounce service (app-nrf/src/services/debounce.c), which keeps the interrupt of a pin off
-- for a number of timer ticks, to the buttons source (app-nrf/src/services/hid/source/buttons.c),
-- which stores levels in toggle queues (app-nrf/include/util/toggle_queue.h). The encoder source
-- (app-nrf/src/services/hid/source/encoder.c) counts the wheel, and the optical sensor source
-- (app-nrf/src/services/hid/source/opt_sensor.c) the movement. They notify the collector
-- (app-nrf/src/services/hid/collector.c), whose thread runs the fillers of the sources with data
-- and hands the report (interface/hid/hid_report_struct.h) to a sink.
--
-- The mode button (app-nrf/src/services/button_mode.c) turns the mouse off when it is held,
-- through the debounce service too, and fades the LEDs (app-nrf/src/platform/pwm.c).
--
-- The Bluetooth transport advertises to the bonds in turn, or to all
-- (app-nrf/src/transport/bt/adv.c), keeps the connection (app-nrf/src/transport/bt/conn.c), and
-- sends the collector's reports to the host, which reads them by the report descriptor
-- (interface/hid/hid_report_map.c).
--
-- The battery service (app-nrf/src/services/battery.c) measures the voltage and reports a level. At
-- boot the mouse turns itself off again unless its button is held
-- (app-nrf/src/platform/boot_cond.c).
--
-- The log. The log backend (modules/log_backend_my_fs/zephyr/log_backend_my_fs.c) writes the
-- kernel's log messages to numbered files and deletes the oldest ones.
--
-- The file system shell (modules/my_fs_shell/zephyr/shell.c) keeps a working directory and runs
-- commands on files.
--
-- The SPI driver (app-nrf/src/platform/spi.c) locks and configures the bus and runs transfers for
-- the sensor (app-nrf/src/drivers/adns7530.c) and for the link.
--
-- The link. The nRF asks the AVR over SPI who it is and sends it reports
-- (app-nrf/src/services/avr_comm.c); the AVR answers (app-avr/src/spi.c) and hands the reports to
-- USB (app-avr/src/reporting.c). Both sides compute the same checksum. The AVR's bootloader
-- (app-avr/bootloader/BootloaderHID.c) programs the flash with what the host sends; resets by the
-- watchdog lead from the application (app-avr/src/Mouse.c) to it and back.
--
-- Files:
--   Base              shared names, Boolean tests, lists, error codes, integers, bits of words
--   ToggleQueue       toggle_queue.h; Spec: a queue of levels; Refine, Length: that it is one
--   Bitmask           app-nrf/include/util/bitmanip.h and the loop over the set bits of a mask;
--                     Order: the order of its rounds; Lowest: a find_lsb_set to run it with
--   Platform/Gpio     gpio.c and app-nrf/include/platform/gpio.h; Single: one pin at a time
--   Platform/Power    app-nrf/src/platform/boot_cond.c and app-nrf/src/platform/shutdown.c; Held: the
--                     button at boot; Off: the pins when the mouse is off
--   Platform/Pwm      app-nrf/src/platform/pwm.c; Interpolation: a step
--                     by the laws of floats; Integers: floats to run it with; Fade: what the LEDs
--                     show
--   Platform/Spi      app-nrf/src/platform/spi.c and app-nrf/include/platform/spi.h; Lock, Managed: the
--                     lock and the pins; Configured: the cache; Simple: a mutex to run it with
--   Debounce          debounce.c; Ring: the circular array; Invariant; Timing: runs of events
--   Hid/Report        hid_report_struct.h, and the persistent bytes of interface/hid/hid_report_map.c
--   Hid/Map           the report descriptor of hid_report_map.c; Host: a host that reads reports by a
--                     descriptor, from the HID specification; Fields: what it reads; Joined:
--                     what it reads where another descriptor comes first
--   Hid/Shell         app-nrf/src/shell/hid.c: its source and its commands; Moves, Sources
--   Hid/Encoder       encoder.c
--   Hid/Buttons       buttons.c
--   Hid/Collector     collector.c and app-nrf/include/services/hid/collector.h; Waiting: the wait
--                     for events; Rounds: what a round does with them; Simple: an event object to
--                     run it with
--   Sensor            app-nrf/src/drivers/adns7530.c and app-nrf/src/services/hid/source/opt_sensor.c;
--                     Transfer: its transactions over the SPI driver; Bus: what they put on the bus;
--                     Motion: the motion pin, its interrupt and the filler; Apart, Irq: the pin's
--                     part of the interrupts; Steps: runs; Kept: that no motion is forgotten
--   Battery           the charge level of app-nrf/src/services/battery.c; Measure: its thread and
--                     app-nrf/src/platform/adc.c, with the command adc of
--                     app-nrf/src/shell/platform.c; Late: which conversion a round reports
--   Bluetooth         app-nrf/src/transport/bt/adv.c and app-nrf/src/transport/bt/conn.c; Transport:
--                     transport.c, hids.c, sink/transport.c and bootopts.c; Deliver: a round of the
--                     collector down to the host; Boot: its initialisation
--   Usb               the control requests of app-avr/src/Mouse.c; Descriptors: the lookup of
--                     app-avr/src/descriptors.c
--   Log               modules/log_backend_my_fs/zephyr/log_backend_my_fs.c; Names: the names of the
--                     files; Kernel: the file system below; Files: their numbers and rotation;
--                     Circle, Delete, Dirs: its theorems
--   Shell             modules/my_fs_shell/zephyr/shell.c; Paths, Buffers, Join: paths in buffers;
--                     Kernel: the file system below; Cwd, Chunks: its theorems; Read: the commands
--                     read and cat; Whole: what they show
--   Boot              app-avr/bootloader/BootloaderHID.c; Program, Request: what ends up in the flash;
--                     Cycle: the resets between it and the application; Kept, Update: what holds
--                     over them, and how a page is replaced
--   ModeButton        app-nrf/src/services/button_mode.c; Held: when the mouse shuts down; Led:
--                     what the LEDs show then
--   Avr/Crc           update_crc of app-nrf/src/services/avr_comm.c; Loop: the loop that checks a
--                     response, with its 8-bit index
--   Avr/Master        the transfer and the device id of avr_comm.c; Avr/Check: its checksum;
--                     Avr/Thread: its lines, and the loop of commands; Rounds: the turns of its
--                     thread; Guarded: when they send what
--   Avr/Transfer      the transfer of avr_comm.c over the SPI driver; Bus: what it puts on the bus
--   Avr/Slave         app-avr/src/spi.c, spi_commands.c and reporting.c, and the buffer of the report
--                     descriptor of app-avr/src/descriptors.c; Answer, Receive, Describe: its transfer
--   Avr/Link          the two together; Reports: the reports on their way to USB; Descriptor: the
--                     report descriptor, and the host that reads reports by it
--   */Tests           the theorems at concrete inputs (also Sensor/BusTests and Avr/HostTests)
--
-- A function of the source is the definition of its name without the prefix of its file
-- (debounce_timer_cb is Debounce.timer_cb). Its file's static variables are one record, which the
-- function takes and returns. Words of 32 bits are numbers with the wrap-around written out. Pins,
-- and the number N of shifts of the debounce service, are parameters, since they come from the
-- device tree and the build configuration.
--
-- Parameters for code that is not of this repository: Bitmask.Ffs is the kernel's find_lsb_set,
-- and Collector.KEvent its event object; Avr.Crc.Ibutton is the checksum function of avr-libc.
-- What the SPI driver of the nRF reports, and what LUFA says of USB, are arguments.
-- Log.Kernel.FileSystem is the kernel's file system, and Platform.Spi.Kernel its mutex and
-- semaphore; the interrupts that come before the timeout of a wait are an argument.
-- Shell.Kernel.FileSystem is the file system as the shell uses it, and strtol. Boot.Flash is the
-- flash memory of the AVR. A call through a NULL pointer and a failed
-- assertion are `none`. Interrupts are events between
-- the calls: the code locks them where it matters, or runs as an interrupt itself.
--
-- Fuel: the loop over the bits of a mask takes 32 rounds, which are enough for a 32-bit word; the
-- wait of the collector takes 2, since it takes the change event off in the first. The deletion of
-- the oldest log takes 10000, one for each numeral, the loop that makes room one more than there
-- are files, and the loop over the directories of a path one more than it has characters. The loop
-- of the commands to the AVR takes any fuel, since it need not end; so does the loop over a
-- response of the AVR, whose 8-bit index wraps around after 256 bytes. The main loop of the AVR's
-- bootloader is a step of Boot.Cycle.Step for each round.
--
-- The polls of the button at boot, and what the kernel's Bluetooth calls return, are arguments.
-- The factor of the battery's resistors, a float in the source, is the parameter `scale`, and
-- Platform.Pwm.Float is the arithmetic on floats of the interpolation of the LEDs.
-- Shell.Read.Reader is the kernel's fs_open for reading and fs_read. The loops of the button at
-- boot, of read and of cat take fuel, and their theorems say how much is enough.
--
-- Not modelled: the initialisation of the sensor, and the quadrature decoder and clock drivers, which
-- configure registers; the shell commands of app-nrf/src/shell/platform.c but adc, and of services.c,
-- which call drivers and print, and of report.c, which no source reads; the contents of the USB descriptors of
-- the AVR; the host tools.
pub mod ModeButton
pub mod Boot
pub mod Shell
pub mod Log
pub mod Avr
pub mod Base
pub mod Battery
pub mod Bluetooth
pub mod Bitmask
pub mod Debounce
pub mod Hid
pub mod Platform
pub mod Sensor
pub mod ToggleQueue
pub mod Usb
