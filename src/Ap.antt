-- ===== src/Ap.antt =====
-- Wi-Fi access points of a switch: the registry of the ones ever seen and the scheduled reboot
-- (app/domains/inventory/ap_registry.py, app/domains/inventory/ap_auto_reboot.py).
pub mod Registry
pub mod View
pub mod Outcomes
pub mod Escalation
pub mod Merging
pub mod Reboot
pub mod Cycle
pub mod Targets
pub mod Choice
pub mod Hardware
pub mod Attention
