-- ===== src/Connection.antt =====
-- The Connections feature: src/modules/connections.
pub mod Rules
pub mod Schedule
pub mod Daily
pub mod Service
