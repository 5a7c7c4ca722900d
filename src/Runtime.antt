-- ===== src/Runtime.antt =====
-- internal/runtime: which account a process may trade on, and when it may open a position.
pub mod Mode
pub mod Isolation
pub mod Locks
pub mod Safety
pub mod Authority
mod Tests
