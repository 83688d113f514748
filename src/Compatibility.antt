-- ===== src/Compatibility.antt =====
-- internal/compatibility: which native program the control plane admits.
pub mod Classify
mod Tests
