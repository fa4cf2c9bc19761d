-- ===== src/Poll.antt =====
-- Polling: the decision that turns probes into a shown state (app/services/poll_resilience.py), and the
-- runs over the computers and the cash registers that use it.
pub mod Resilience
pub mod Fleet
