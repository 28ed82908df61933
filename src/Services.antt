-- ===== src/Services.antt =====
-- services.py: the services of the integration, on the machines that a call targets.
pub mod Targets
pub mod Store
pub mod Requests
pub mod Calls
pub mod Contained
pub mod Frames
pub mod Scan
