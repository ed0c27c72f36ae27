-- ===== src/Lsps1/Tests.antt =====
-- The theorems on src/lsps1/ at concrete inputs.
mod Client
mod Service
pub mod Data
