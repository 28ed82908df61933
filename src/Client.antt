-- ===== src/Client.antt =====
-- client.py: which adapter and which characteristics to use, and the connect ladder.
pub mod Text
pub mod Adapters
pub mod Characteristics
pub mod State
pub mod Connect
pub mod Bond
