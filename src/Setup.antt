-- ===== src/Setup.antt =====
-- __init__.py, config_flow.py and pairing.py: what sets a machine up.
pub mod Entry
pub mod Provider
pub mod Flow
pub mod Agent
