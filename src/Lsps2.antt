-- ===== src/Lsps2.antt =====
-- src/lsps2/: just-in-time channels.
pub mod PaymentQueue
pub mod Split
pub mod Fee
pub mod Msgs
pub mod Event
pub mod Promise
pub mod JitChannel
pub mod Service
pub mod Client
pub mod Tests
