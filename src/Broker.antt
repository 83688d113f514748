-- ===== src/Broker.antt =====
-- internal/broker: running the native program.
pub mod Output
pub mod Sanitize
mod Tests
