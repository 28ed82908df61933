-- ===== src/Const.antt =====
-- const.py, a module for each part of it.
pub mod Enum
pub mod Framing
pub mod Crypto
pub mod Status
pub mod Recipes
pub mod DirectKeys
pub mod Brewing
pub mod Settings
pub mod Slots
