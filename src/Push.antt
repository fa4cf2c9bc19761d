-- ===== src/Push.antt =====
-- app/domains/remote_access: the queue of RustDesk pushes.
pub mod Jobs
pub mod Execute
pub mod Single
pub mod Orders
pub mod Outcome
