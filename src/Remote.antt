-- ===== src/Remote.antt =====
-- app/domains/remote_access/service/: the machines that the RustDesk console is to reach.
pub mod Device
pub mod Labels
pub mod Rows
pub mod Inventory
pub mod Mirror
pub mod Deployment
pub mod Console
pub mod Sync
pub mod AddressBook
pub mod Accounts
pub mod Logins
pub mod Kept
pub mod Changes
pub mod Requests
pub mod Names
pub mod Renaming
pub mod Unique
pub mod Background
pub mod Healing
pub mod Readiness
pub mod Seeding
pub mod Releasing
pub mod Deleting
pub mod Sharing
