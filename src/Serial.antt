-- ===== src/Serial.antt =====
-- pkg/serial: the serial port's configuration and its manager.
pub mod Config
pub mod Ports
pub mod Manager
pub mod Utf8
pub mod Reader
pub mod Reconnect
