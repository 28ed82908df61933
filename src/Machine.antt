-- ===== src/Machine.antt =====
-- machine.py, `MelittaMachine`: the request/response layer over the BLE write function.
pub mod Session
pub mod Waiters
pub mod Handshake
pub mod Reads
pub mod Writes
pub mod Overrides
pub mod Brew
