-- ===== src/Scheduler.antt =====
-- internal/scheduler: the one durable schedule of automatic evaluations.
pub mod Types
pub mod Calculate
pub mod Row
pub mod Store
pub mod Service
mod Tests
