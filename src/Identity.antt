-- ===== src/Identity.antt =====
-- internal/identity: the administrator and the sessions of the browser.
pub mod Types
pub mod Session
pub mod Service
mod Tests
