-- ===== src/Manager/Tests.antt =====
-- Runs of src/manager.rs and of the reading and writing of src/lsps0/ser.rs on concrete inputs.
mod Blocks
mod Exchange
mod Ignored
mod Json
pub mod Data
