-- ===== src/Lsps2/Tests.antt =====
-- Concrete inputs for the theorems on src/lsps2/service.rs and its queue, and runs of the code.
pub mod Data
mod Queue
mod Channel
mod Requests
mod Client
mod Forward
mod Safe
