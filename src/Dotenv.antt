-- ===== src/Dotenv.antt =====
-- internal/dotenv: bounded dotenv documents with surgical edits.
pub mod Types
pub mod Lines
pub mod Value
pub mod Scan
pub mod Document
pub mod Apply
mod Tests
