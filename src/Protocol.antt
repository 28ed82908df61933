-- ===== src/Protocol.antt =====
-- protocol.py: cipher, checksum, verifier, payloads, frames and the frame parser.
pub mod Rc4
pub mod Checksum
pub mod Words
pub mod Recipe
pub mod Status
pub mod Values
pub mod Frame
pub mod Parser
