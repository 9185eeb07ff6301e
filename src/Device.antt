-- ===== src/Device.antt =====
-- The device behind the line: src/RitexDevice.cpp with its tables.
pub mod Table
pub mod Event
pub mod Settings
pub mod Channels
pub mod Reports
pub mod Faults
pub mod Turns
pub mod Clock
pub mod Examples
