-- ===== src/Entities.antt =====
-- entity.py and the platforms: what Home Assistant shows of a machine, and what it can press, set and choose.
pub mod Base
pub mod Selects
pub mod Buttons
pub mod Numbers
pub mod Sensors
pub mod Binary
