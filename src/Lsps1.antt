-- ===== src/Lsps1.antt =====
-- src/lsps1/: channels that a client orders and pays for in advance.
pub mod Msgs
pub mod Event
pub mod Order
pub mod Inbound
pub mod Outbound
pub mod Client
pub mod Service
pub mod Placing
pub mod Flow
mod Tests
