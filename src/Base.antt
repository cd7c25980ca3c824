-- ===== src/Base.antt =====
-- base.py: units of time, the proof-expiry grid.
pub mod Units
pub mod Grid
pub mod Errors
pub mod Hex
