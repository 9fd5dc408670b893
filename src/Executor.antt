-- ===== src/Executor.antt =====
-- `DurableExecutorAuthorizationStore` and the functions of executor_authorization.py.
pub mod Record
pub mod Layout
pub mod Operations
pub mod Steps
pub mod Search
pub mod Changes
pub mod Once
pub mod Live
pub mod Proven
pub mod Trusted
pub mod Samples
mod Tests
