-- ===== src/Modbus.antt =====
-- backend/internal/protocol/modbus: the Modbus TCP client and the driver for gateways, devices and
-- datasources. The module go-modbus-client is a parameter: its packets, its transport and its faults.
pub mod Config
pub mod Request
pub mod Client
pub mod Failure
pub mod Sample
pub mod Driver
mod Tests
