-- ===== src/Tests/StockTests.antt =====
-- Runs of app/services/cartridge_stock.py and app/services/cartridge_inventory.py.
use infra_scope.Common.{
  All, ℕ, ◌+◌, ◌<◌, true, false, Option, none, some, List, [], ◌∷◌, nat_eq, string_eq, String,
  arith, ◌≡◌, ◌≢◌, refl,
}
use infra_scope.Common.Int.{pos, ◌+ℤ◌}
use infra_scope.Stock.Tables.{
  CartridgeStock, CartridgeStockMovement, adjust, Db, find_by_id, find_by_name, moved,
}
use infra_scope.Stock.Catalogue.{CartridgeIssueRequest, issue_cartridge_stock}
use infra_scope.Stock.Inventory.{
  CartridgeInventoryItem, CartridgeInventoryDocument, validates, names_unique, names_contain,
  quantity_sum, reconcile_cartridge_inventory,
}
use infra_scope.Stock.Balance.{IsBalanced}
use infra_scope.Stock.Keys.{IsKeyed}
use infra_scope.Stock.Counting.{IsCounted}
use infra_scope.Stock.Reconcile.{reconcile_lem, reconcile_preview}
use infra_scope.Stock.Printers.{Printer, sync_cartridge_stock_from_printers}
use infra_scope.Stock.Syncing.{IsKept, sync_cartridge_stock_from_printers_lem}
use infra_scope.Stock.History.{Step, Reach, Reach-IsBalanced, IssueOutcome, issue_lem}

abbrev black : CartridgeStock
black = record {
  id = 0;
  cartridge_name = "CF259A";
  toner_color = some "black";
  compatible_printer_models = "M404";
  printer_count = 2;
  quantity_on_hand = 5;
  minimum_stock = 1;
  is_active = true;
  last_synced_at = none;
  created_at = 10;
  updated_at = none;
}

abbrev opened : CartridgeStockMovement
opened = record {
  stock_id = 0;
  delta = pos 5;
  reason = adjust;
  note = none;
  created_by = some "admin";
}

abbrev stock_db : Db
stock_db = record { rows = black ∷ []; movements = opened ∷ [] }

stock_db-IsBalanced : IsBalanced stock_db
unfolding moved find_by_id ◌+ℤ◌
stock_db-IsBalanced q = ground arith

stock_db-IsKeyed : IsKeyed stock_db.rows
unfolding find_by_id find_by_name
stock_db-IsKeyed = (refl, refl, tt)

abbrev two_black : CartridgeIssueRequest
two_black = record { quantity = 2; note = none }

issue_lem_example :
    IssueOutcome stock_db 0 two_black
      (issue_cartridge_stock stock_db 20 0 two_black none)
      (find_by_id 0 stock_db.rows)
issue_lem_example = issue_lem stock_db 20 0 two_black none

abbrev cyan_item : CartridgeInventoryItem
cyan_item = record {
  cartridge_name = "W2031A";
  toner_color = some "cyan";
  quantity_on_hand = 3;
  compatible_printer_models = "M454";
  source_row = some 2;
}

-- A count that finds one cartridge that is new, and lacks the old one.
abbrev counted : CartridgeInventoryDocument
counted = record { position_count = 1; quantity_total = 3; items = cyan_item ∷ [] }

abbrev next_id : ℕ → ℕ
next_id n = n + 1

next_id-distinct : (m n : ℕ) → m < n → next_id m ≢ next_id n
next_id-distinct m n h = λ e. omega arith

next_id-unused : (n : ℕ) → find_by_id (next_id n) stock_db.rows ≡ none
unfolding find_by_id
next_id-unused n = ground (arith, nat_eq.beq_iff 0 (n + 1))

abbrev count_note : Option ℕ → String
count_note row = "count"

reconcile_lem_example :
    let db' =
      (reconcile_cartridge_inventory next_id 30 count_note none stock_db counted true true).0 in
    IsBalanced db'
    × IsKeyed db'.rows
    × All (IsCounted db'.rows) counted.items
    × ((row : CartridgeStock)
        → find_by_name row.cartridge_name db'.rows ≡ some row
        → names_contain row.cartridge_name counted.items ≡ false
        → row.is_active ≡ false)
unfolding validates names_unique names_contain quantity_sum
reconcile_lem_example =
    reconcile_lem next_id 30 count_note none next_id-distinct stock_db counted stock_db-IsBalanced
      stock_db-IsKeyed next_id-unused refl

-- Two printers with one cartridge, and one whose other name is blank.
abbrev printers : List Printer
printers =
    record {
      is_laser = true;
      model = "M404";
      toner_black_name = some "CF259A";
      toner_cyan_name = none;
      toner_magenta_name = none;
      toner_yellow_name = none;
    }
    ∷ record {
      is_laser = true;
      model = "M428";
      toner_black_name = some "CF259A";
      toner_cyan_name = some "";
      toner_magenta_name = none;
      toner_yellow_name = some "W2032A";
    }
    ∷ []

sync_cartridge_stock_from_printers_lem_example :
    let db' = sync_cartridge_stock_from_printers (λ t. t) 40 next_id (λ t. t) printers stock_db in
    IsBalanced db'
    × IsKeyed db'.rows
    × ((q : ℕ) (row : CartridgeStock)
        → find_by_id q stock_db.rows ≡ some row
        → IsKept row (find_by_id q db'.rows))
sync_cartridge_stock_from_printers_lem_example =
    sync_cartridge_stock_from_printers_lem (λ t. t) 40 next_id next_id-distinct (λ t. t) printers
      stock_db stock_db-IsBalanced stock_db-IsKeyed next_id-unused

reconcile_preview_example :
    let preview =
      reconcile_cartridge_inventory next_id 30 count_note none stock_db counted false true in
    let applied =
      reconcile_cartridge_inventory next_id 30 count_note none stock_db counted true true in
    (preview.0 ≡ stock_db) × (record preview.1 { applied = true } ≡ applied.1)
reconcile_preview_example = reconcile_preview next_id 30 count_note none stock_db counted true

Reach-IsBalanced_example :
    let db' =
      (reconcile_cartridge_inventory next_id 30 count_note none stock_db counted true true).0 in
    IsBalanced db' × IsKeyed db'.rows
Reach-IsBalanced_example =
    Reach-IsBalanced stock_db
      (reconcile_cartridge_inventory next_id 30 count_note none stock_db counted true true).0
      stock_db-IsBalanced stock_db-IsKeyed
      (Reach.next Reach.here (
        Step.counted next_id 30 count_note none counted true true next_id-distinct next_id-unused
          refl))
