-- ===== src/Avr.antt =====
-- The link between the nRF and the AVR: app-nrf/src/services/avr_comm.c on the one side, and
-- app-avr/src/spi.c with app-avr/src/spi_commands.c on the other.
pub mod Crc
pub mod Slave
pub mod Master
pub mod Check
pub mod Link
pub mod Thread
pub mod Transfer
mod Tests
mod HostTests
