-- ===== src/Auth.antt =====
-- Execution authorization (sanitization_authorization.py): trusted bindings, the one-shot gate and
-- its durable journal.
pub mod Text
pub mod Types
pub mod Binding
pub mod Gate
pub mod Approval
pub mod Journal
pub mod Durable
mod Tests
