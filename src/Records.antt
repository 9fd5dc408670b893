-- ===== src/Records.antt =====
-- The Version 1 records of batches and drives (drive_sanitization_manager.py).
pub mod Guards
pub mod Drive
pub mod Batch
mod Tests
