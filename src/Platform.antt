-- ===== src/Platform.antt =====
-- The nRF application's drivers of the chip.
pub mod Gpio
pub mod Power
pub mod Pwm
pub mod Spi
mod Tests
