-- ===== src/Attempt.antt =====
-- `DurableExecutionAttemptJournal` and the functions of execution_attempt_journal.py.
pub mod Record
pub mod Layout
pub mod Operations
pub mod Steps
pub mod Once
pub mod Samples
mod Tests
