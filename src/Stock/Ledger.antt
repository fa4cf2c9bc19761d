-- ===== src/Stock/Ledger.antt =====
-- What the operations of app/services/cartridge_stock.py do to the ledger and to the quantities.
use infra_scope.Common.{ℕ, ◌≡◌, Option, none, some, List, nat_eq, arith, Option-cases, inl, inr}
use infra_scope.Common.Int.{◌+ℤ◌, ◌-ℤ◌}
use infra_scope.Stock.Tables.{CartridgeStock, Db, ok, find_by_id, moved, Result-cases}
use infra_scope.Stock.Catalogue.{
  CartridgeStockCreate, CartridgeStockUpdate, CartridgeIssueRequest, create_cartridge_stock,
  deactivate_cartridge_stock, update_cartridge_stock, issue_cartridge_stock, rename, assign_fields,
  adjustment,
}
use infra_scope.Stock.Balance.{IsBalanced, find_by_id-id, find_by_id-store}

pub create-IsBalanced :
    (db : Db) (new_id now : ℕ) (payload : CartridgeStockCreate) (actor : Option _) (db' : Db)
    (row : CartridgeStock)
    → IsBalanced db
    → find_by_id new_id db.rows ≡ none
    → create_cartridge_stock db new_id now payload actor ≡ ok (db', row)
    → IsBalanced db'
unfolding moved create_cartridge_stock ◌+ℤ◌
create-IsBalanced db new_id now payload actor db' row b fresh e q =
    ground (arith, find_by_id-store row q db.rows, b q, b new_id)

pub issue-IsBalanced :
    (db : Db) (now stock_id : ℕ) (payload : CartridgeIssueRequest) (actor : Option _) (db' : Db)
    (row : CartridgeStock)
    → IsBalanced db
    → issue_cartridge_stock db now stock_id payload actor ≡ ok (db', row)
    → IsBalanced db'
unfolding moved issue_cartridge_stock ◌+ℤ◌ ◌-ℤ◌
issue-IsBalanced db now stock_id payload actor db' row b e q =
    elim (Option-cases (find_by_id stock_id db.rows)) [
      | inl gone ↦ absurd (ground arith)
      | inr (old, found) ↦ ground (
        arith,
        find_by_id-store row q db.rows,
        b q,
        b old.id,
        find_by_id-id stock_id db.rows old found,
      )
    ]

pub deactivate-IsBalanced :
    (db : Db) (now stock_id : ℕ) (db' : Db) (row : CartridgeStock)
    → IsBalanced db
    → deactivate_cartridge_stock db now stock_id ≡ ok (db', row)
    → IsBalanced db'
unfolding deactivate_cartridge_stock
deactivate-IsBalanced db now stock_id db' row b e q =
    elim (Option-cases (find_by_id stock_id db.rows)) [
      | inl gone ↦ absurd (ground arith)
      | inr (old, found) ↦
          ground
            (arith, find_by_id-store row q db.rows, b q, find_by_id-id stock_id db.rows old found)
    ]

rename-keeps :
    (rows : List CartridgeStock) (row row' : CartridgeStock) (name : Option _)
    → rename rows row name ≡ ok row'
    → (row'.id ≡ row.id) × (row'.quantity_on_hand ≡ row.quantity_on_hand)
unfolding rename
rename-keeps rows row row' none h = ground arith
rename-keeps rows row row' (some name) h = ground arith

pub update-IsBalanced :
    (db : Db) (now stock_id : ℕ) (payload : CartridgeStockUpdate) (actor : Option _) (db' : Db)
    (row : CartridgeStock)
    → IsBalanced db
    → update_cartridge_stock db now stock_id payload actor ≡ ok (db', row)
    → IsBalanced db'
unfolding moved assign_fields adjustment update_cartridge_stock ◌+ℤ◌ ◌-ℤ◌
update-IsBalanced db now stock_id payload actor db' row b e q =
    elim (Option-cases (find_by_id stock_id db.rows)) [
      | inl gone ↦ absurd (ground arith)
      | inr (old, found) ↦ elim (Result-cases (rename db.rows old payload.cartridge_name)) [
        | inl (why, refused) ↦ absurd (ground arith)
        | inr (renamed, granted) ↦ ground (
          arith,
          find_by_id-store row q db.rows,
          b q,
          find_by_id-id stock_id db.rows old found,
          rename-keeps db.rows old renamed payload.cartridge_name granted,
        )
      ]
    ]
