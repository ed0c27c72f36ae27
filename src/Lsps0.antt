-- ===== src/Lsps0.antt =====
-- src/lsps0/: the base protocol, and the JSON-RPC form of every protocol's messages.
pub mod Ser
pub mod Msgs
pub mod Client
pub mod Service
pub mod Method
pub mod Json
