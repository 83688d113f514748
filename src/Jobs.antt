-- ===== src/Jobs.antt =====
-- internal/jobs: the durable latest operation and its worker.
pub mod Types
pub mod Validate
pub mod Operation
pub mod Database
pub mod Store
pub mod Changes
pub mod Endings
pub mod Lifecycle
pub mod Service
pub mod Worker
mod Tests
