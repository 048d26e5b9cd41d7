-- ===== src/Harness.antt =====
-- The harness package: the fault-injecting file system and the crash-oracle drivers.
pub mod Vfs
pub mod Fault
pub mod Engine
pub mod Driver
pub mod IdbDriver
pub mod Receipt
pub mod Memory
mod Tests
