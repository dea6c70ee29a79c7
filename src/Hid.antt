-- ===== src/Hid.antt =====
-- The path of the mouse's input: the report, the sources that fill it, and the collector.
pub mod Report
pub mod Map
pub mod Encoder
pub mod Buttons
pub mod Collector
pub mod Shell
mod Tests
