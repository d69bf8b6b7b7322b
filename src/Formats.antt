-- ===== src/Formats.antt =====
-- Formatters: what becomes of a D-Bus value before it is stored in a field (src/formatters.hpp and
-- the headers of the entities).
pub mod Base
pub mod Accounts
pub mod Certificates
pub mod Chassis
pub mod Cpu
pub mod Drive
pub mod Firmware
pub mod Manager
pub mod Memory
pub mod NetworkInterface
pub mod NetworkProtocol
pub mod Pcie
pub mod PidControl
pub mod Server
pub mod SessionManager
pub mod VirtualMedia
pub mod Values
pub mod Parts
pub mod Groups
mod Tests
