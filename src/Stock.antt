-- ===== src/Stock.antt =====
-- The cartridge store: its catalogue rows and the ledger of movements
-- (app/services/cartridge_stock.py, app/services/cartridge_inventory.py, and the tables of
-- app/domains/inventory/models.py). Identifiers and times are numbers; an identifier that the
-- database hands out is an argument.
pub mod Tables
pub mod Catalogue
pub mod Inventory
pub mod Balance
pub mod Ledger
pub mod Keys
pub mod Counting
pub mod Closing
pub mod Reconcile
pub mod Naming
pub mod Printers
pub mod Supplies
pub mod Syncing
pub mod History
