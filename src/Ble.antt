-- ===== src/Ble.antt =====
-- crates/poholos-cli/src/transport/ble: frames in service UUIDs, and the loop that advertises.
pub mod Uuid
pub mod Scan
pub mod Advertise
pub mod Belief
pub mod Linux
pub mod Macos
pub mod Windows
