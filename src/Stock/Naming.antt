-- ===== src/Stock/Naming.antt =====
-- The operations of app/services/cartridge_stock.py and the keys of the catalogue.
use infra_scope.Common.{
  ℕ, ◌≡◌, Option, none, some, List, String, nat_eq, string_eq, arith, Option-cases, inl, inr, ◌⊎◌,
}
use infra_scope.Stock.Tables.{CartridgeStock, Db, ok, Result-cases, find_by_id, find_by_name, store}
use infra_scope.Stock.Catalogue.{
  CartridgeStockCreate, CartridgeStockUpdate, CartridgeIssueRequest, create_cartridge_stock,
  deactivate_cartridge_stock, update_cartridge_stock, issue_cartridge_stock, rename, assign_fields,
}
use infra_scope.Stock.Balance.{find_by_id-id}
use infra_scope.Stock.Keys.{IsKeyed, Fits, store-IsKeyed, store-IsKeyed_renamed, find_by_id_of_name}

pub create-IsKeyed :
    (db : Db) (new_id now : ℕ) (payload : CartridgeStockCreate) (actor : Option String) (db' : Db)
    (row : CartridgeStock)
    → IsKeyed db.rows
    → find_by_id new_id db.rows ≡ none
    → create_cartridge_stock db new_id now payload actor ≡ ok (db', row)
    → IsKeyed db'.rows
unfolding create_cartridge_stock
create-IsKeyed db new_id now payload actor db' row k fresh e =
    elim (Option-cases (find_by_name payload.cartridge_name db.rows)) [
      | inr (clash, found) ↦ absurd (ground arith)
      | inl free ↦
          let rows : db'.rows ≡ store row db.rows = ground arith in
          let fields : (row.id ≡ new_id) × (row.cartridge_name ≡ payload.cartridge_name) =
            ground arith in
          rw rows
            (store-IsKeyed row db.rows k (inr (ground (arith, fields), ground (arith, fields))))
    ]

-- A stored row that keeps its name.
same_name-IsKeyed :
    (rows : List CartridgeStock) (stock_id : ℕ) (old row : CartridgeStock)
    → IsKeyed rows
    → find_by_id stock_id rows ≡ some old
    → row.id ≡ old.id
    → row.cartridge_name ≡ old.cartridge_name
    → IsKeyed (store row rows)
same_name-IsKeyed rows stock_id old row k found id name =
    store-IsKeyed row rows k
      (inl (old, ground (arith, find_by_id-id stock_id rows old found), ground arith))

pub deactivate-IsKeyed :
    (db : Db) (now stock_id : ℕ) (db' : Db) (row : CartridgeStock)
    → IsKeyed db.rows
    → deactivate_cartridge_stock db now stock_id ≡ ok (db', row)
    → IsKeyed db'.rows
unfolding deactivate_cartridge_stock
deactivate-IsKeyed db now stock_id db' row k e = elim (Option-cases (find_by_id stock_id db.rows)) [
  | inl gone ↦ absurd (ground arith)
  | inr (old, found) ↦
      let rows : db'.rows ≡ store row db.rows = ground arith in
      rw rows (same_name-IsKeyed db.rows stock_id old row k found (ground arith) (ground arith))
]

pub issue-IsKeyed :
    (db : Db) (now stock_id : ℕ) (payload : CartridgeIssueRequest) (actor : Option String)
    (db' : Db) (row : CartridgeStock)
    → IsKeyed db.rows
    → issue_cartridge_stock db now stock_id payload actor ≡ ok (db', row)
    → IsKeyed db'.rows
unfolding issue_cartridge_stock
issue-IsKeyed db now stock_id payload actor db' row k e =
    elim (Option-cases (find_by_id stock_id db.rows)) [
      | inl gone ↦ absurd (ground arith)
      | inr (old, found) ↦
          let rows : db'.rows ≡ store row db.rows = ground arith in
          rw rows (same_name-IsKeyed db.rows stock_id old row k found (ground arith) (ground arith))
    ]

-- A granted name is the row's own or one that no row has.
rename-name :
    (rows : List CartridgeStock) (row row' : CartridgeStock) (name : Option String)
    → IsKeyed rows
    → find_by_id row.id rows ≡ some row
    → rename rows row name ≡ ok row'
    → (row'.id ≡ row.id)
      × ((row'.cartridge_name ≡ row.cartridge_name)
          ⊎ (find_by_name row'.cartridge_name rows ≡ none))
unfolding rename
rename-name rows row row' none k stored h = ground arith
rename-name rows row row' (some name) k stored h = elim (Option-cases (find_by_name name rows)) [
  | inl free ↦ ground (arith, string_eq.beq_iff name row.cartridge_name)
  | inr (clash, found) ↦ ground (
    arith,
    string_eq.beq_iff name row.cartridge_name,
    find_by_id_of_name name rows clash k found,
    infra_scope.Stock.Keys.find_by_name-name name rows clash found,
  )
]

pub update-IsKeyed :
    (db : Db) (now stock_id : ℕ) (payload : CartridgeStockUpdate) (actor : Option String) (db' : Db)
    (row : CartridgeStock)
    → IsKeyed db.rows
    → update_cartridge_stock db now stock_id payload actor ≡ ok (db', row)
    → IsKeyed db'.rows
unfolding update_cartridge_stock assign_fields
update-IsKeyed db now stock_id payload actor db' row k e =
    elim (Option-cases (find_by_id stock_id db.rows)) [
      | inl gone ↦ absurd (ground arith)
      | inr (old, found) ↦ elim (Result-cases (rename db.rows old payload.cartridge_name)) [
        | inl (why, refused) ↦ absurd (ground arith)
        | inr (renamed, granted) ↦
            let rows : db'.rows ≡ store row db.rows = ground arith in
            let fields : (row.id ≡ renamed.id) × (row.cartridge_name ≡ renamed.cartridge_name) =
              ground arith in
            let stored : find_by_id old.id db.rows ≡ some old =
              ground (arith, find_by_id-id stock_id db.rows old found) in
            let (id, name) =
              rename-name db.rows old renamed payload.cartridge_name k stored granted in
            rw rows (elim name [
              | inl same ↦
                  same_name-IsKeyed db.rows stock_id old row k found (ground arith) (ground arith)
              | inr free ↦ store-IsKeyed_renamed row db.rows k (ground (arith, fields, free))
            ])
      ]
    ]
