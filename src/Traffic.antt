-- ===== src/Traffic.antt =====
-- The traffic with the station: the rest of src/ComTrafficProcessor.cpp.
pub mod Fault
pub mod Exchange
pub mod Motor
pub mod Modes
pub mod Ends
pub mod Run
pub mod Examples
