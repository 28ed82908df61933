-- ===== src/Coordinator.antt =====
-- coordinator.py: the state that the entities show, and the commands that they give.
pub mod State
pub mod Profiles
pub mod Commands
pub mod Polling
pub mod Lifecycle
pub mod Reported
