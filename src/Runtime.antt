-- ===== src/Runtime.antt =====
-- internal/runtime: what is known of the native program.
pub mod Version
mod Tests
