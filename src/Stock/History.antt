-- ===== src/Stock/History.antt =====
-- Every history of the cartridge store, whatever the order of its operations
-- (app/services/cartridge_stock.py and app/services/cartridge_inventory.py).
use infra_scope.Common.{
  ℕ, ◌+◌, ◌-◌, ◌<◌, ◌≡◌, ◌≢◌, Bool, Option, none, some, List, ◌∷◌, String, if◌then◌else◌, ◌==◌,
  nat_eq, string_eq, arith, Option-cases, Bool-cases, inl, inr, ◌⊎◌, ltb,
}
use infra_scope.Stock.Tables.{
  CartridgeStock, Db, Result, ok, err, missing_error, quantity_error, find_by_id, store, issue,
}
use infra_scope.Common.Int.{pos, ◌-ℤ◌}
use infra_scope.Stock.Catalogue.{
  CartridgeStockCreate, CartridgeStockUpdate, CartridgeIssueRequest, create_cartridge_stock,
  deactivate_cartridge_stock, update_cartridge_stock, issue_cartridge_stock,
}
use infra_scope.Stock.Inventory.{CartridgeInventoryDocument, reconcile_cartridge_inventory}
use infra_scope.Stock.Balance.{IsBalanced, find_by_id-id, find_by_id-store}
use infra_scope.Stock.Keys.{IsKeyed}
use infra_scope.Stock.Ledger.{
  create-IsBalanced, update-IsBalanced, deactivate-IsBalanced, issue-IsBalanced,
}
use infra_scope.Stock.Printers.{Printer, sync_cartridge_stock_from_printers}
use infra_scope.Stock.Syncing.{sync_cartridge_stock_from_printers_lem}
use infra_scope.Stock.Reconcile.{reconcile-IsBalanced}
use infra_scope.Stock.Naming.{create-IsKeyed, deactivate-IsKeyed, issue-IsKeyed, update-IsKeyed}

-- One successful call of an operation. (A call that fails stores nothing.)
pub data Step (db db' : Db) : Type 0 where
  created :
      (new_id now : ℕ) (payload : CartridgeStockCreate) (actor : Option String)
      (row : CartridgeStock)
      → find_by_id new_id db.rows ≡ none
      → create_cartridge_stock db new_id now payload actor ≡ ok (db', row)
      → Step db db'
  updated :
      (now stock_id : ℕ) (payload : CartridgeStockUpdate) (actor : Option String)
      (row : CartridgeStock)
      → update_cartridge_stock db now stock_id payload actor ≡ ok (db', row)
      → Step db db'
  deactivated :
      (now stock_id : ℕ) (row : CartridgeStock)
      → deactivate_cartridge_stock db now stock_id ≡ ok (db', row)
      → Step db db'
  issued :
      (now stock_id : ℕ) (payload : CartridgeIssueRequest) (actor : Option String)
      (row : CartridgeStock)
      → issue_cartridge_stock db now stock_id payload actor ≡ ok (db', row)
      → Step db db'
  counted :
      (new_id : ℕ → ℕ) (now : ℕ) (note : Option ℕ → String) (actor : Option String)
      (document : CartridgeInventoryDocument) (apply deactivate_missing : Bool)
      → ((m n : ℕ) → m < n → new_id m ≢ new_id n)
      → ((n : ℕ) → find_by_id (new_id n) db.rows ≡ none)
      → (reconcile_cartridge_inventory new_id now note actor db document apply deactivate_missing).0
        ≡ db'
      → Step db db'
  synced :
      (new_id : ℕ → ℕ) (now : ℕ) (cut clean : String → String) (printers : List Printer)
      → ((m n : ℕ) → m < n → new_id m ≢ new_id n)
      → ((n : ℕ) → find_by_id (new_id n) db.rows ≡ none)
      → sync_cartridge_stock_from_printers cut now new_id clean printers db ≡ db'
      → Step db db'

pub data Reach (db : Db) : Db → Type 0 where
  here : Reach db db
  next : {db₁ db₂ : Db} → Reach db db₁ → Step db₁ db₂ → Reach db db₂

Step-IsBalanced :
    (db db' : Db)
    → Step db db'
    → IsBalanced db × IsKeyed db.rows
    → IsBalanced db' × IsKeyed db'.rows
Step-IsBalanced db db' (created new_id now payload actor row fresh e) (b, k) = (
  create-IsBalanced db new_id now payload actor db' row b fresh e,
  create-IsKeyed db new_id now payload actor db' row k fresh e,
)
Step-IsBalanced db db' (updated now stock_id payload actor row e) (b, k) = (
  update-IsBalanced db now stock_id payload actor db' row b e,
  update-IsKeyed db now stock_id payload actor db' row k e,
)
Step-IsBalanced db db' (deactivated now stock_id row e) (b, k) = (
  deactivate-IsBalanced db now stock_id db' row b e,
  deactivate-IsKeyed db now stock_id db' row k e,
)
Step-IsBalanced db db' (issued now stock_id payload actor row e) (b, k) = (
  issue-IsBalanced db now stock_id payload actor db' row b e,
  issue-IsKeyed db now stock_id payload actor db' row k e,
)
Step-IsBalanced db db' (counted new_id now note actor document apply close distinct unused e)
      (b, k) =
    rw (← e)
      (reconcile-IsBalanced new_id now note actor distinct db document apply close b k unused)
Step-IsBalanced db db' (synced new_id now cut clean printers distinct unused e) (b, k) =
    let (balanced, keyed, rest) =
      sync_cartridge_stock_from_printers_lem cut now new_id distinct clean printers db b k unused in
    rw (← e) (balanced, keyed)

-- Along any history of the store (rows created, updated, archived and issued, documents
-- reconciled, the printers read) that starts from a balanced catalogue with unique keys, the
-- movements of every position add up to its quantity on hand, and no identifier and no name is
-- given twice.
pub Reach-IsBalanced :
    (db db' : Db)
    → IsBalanced db
    → IsKeyed db.rows
    → Reach db db'
    → IsBalanced db' × IsKeyed db'.rows
Reach-IsBalanced db db' b k here = (b, k)
Reach-IsBalanced db db' b k (next {db₁ = db₁} r s) =
    Step-IsBalanced db₁ db' s (Reach-IsBalanced db db₁ b k r)

-- What an issue must do, given the row that it finds.
abbrev pub IssueOutcome :
    Db → ℕ → CartridgeIssueRequest → Result (Db × CartridgeStock) → Option CartridgeStock → Type 0
IssueOutcome db stock_id payload result none = result ≡ err missing_error
IssueOutcome db stock_id payload result (some old) =
    ((old.quantity_on_hand < payload.quantity) × (result ≡ err quantity_error))
    ⊎ ((db' : Db) × (row : CartridgeStock) × (result ≡ ok (db', row))
        × (row.quantity_on_hand + payload.quantity ≡ old.quantity_on_hand)
        × ((q : ℕ)
            → find_by_id q db'.rows ≡ (if stock_id == q then some row else find_by_id q db.rows)))

-- An issue succeeds exactly when the position exists and has the quantity asked for; what is left
-- and what was issued then add up to what there was, every other position is as before, and a
-- missing position and a short one are told apart by the error.
pub issue_lem :
    (db : Db) (now stock_id : ℕ) (payload : CartridgeIssueRequest) (actor : Option String)
    → IssueOutcome db stock_id payload
        (issue_cartridge_stock db now stock_id payload actor)
        (find_by_id stock_id db.rows)
unfolding issue_cartridge_stock
issue_lem db now stock_id payload actor = elim (Option-cases (find_by_id stock_id db.rows)) [
  | inl gone ↦ rw gone (ground arith)
  | inr (old, found) ↦ elim (Bool-cases (ltb old.quantity_on_hand payload.quantity)) [
    | inl short ↦ rw found (inl (ground arith, ground arith))
    | inr enough ↦
        let row : CartridgeStock = record old {
          quantity_on_hand = old.quantity_on_hand - payload.quantity;
          updated_at = some now;
        } in
        let db' : Db = record {
          rows = store row db.rows;
          movements =
              record {
                stock_id = old.id;
                delta = pos 0 -ℤ pos payload.quantity;
                reason = issue;
                note = payload.note;
                created_by = actor;
              }
              ∷ db.movements;
        } in
        rw found (
          inr (
            db',
            row,
            ground arith,
            ground arith,
            λ q.
                ground
                  (arith, find_by_id-store row q db.rows, find_by_id-id stock_id db.rows old found),
          ))
  ]
]
