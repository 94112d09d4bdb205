-- ===== src/Connection/Schedule.antt =====
-- connection.schedule.ts: turning a Connection's wall-clock schedule into absolute instants.
pub mod Clock
pub mod Calendar
mod Tests
