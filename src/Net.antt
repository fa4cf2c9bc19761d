-- ===== src/Net.antt =====
-- app/domains/inventory/reachability.py: whether a device answers.
pub mod Reachability
pub mod Agreement
