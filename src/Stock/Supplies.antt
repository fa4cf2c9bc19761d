-- ===== src/Stock/Supplies.antt =====
-- The ledger and the keys of the catalogue while `sync_cartridge_stock_from_printers` of
-- app/services/cartridge_stock.py goes through the names.
use infra_scope.Common.{
  ℕ, ◌≤◌, ◌<◌, ◌≡◌, ◌≢◌, refl, sym, ap, subst, Option, none, some, List, [], ◌∷◌, String,
  if◌then◌else◌, nat_eq, string_eq, arith, Bool-cases, inl, inr,
}
use infra_scope.Stock.Tables.{
  CartridgeStock, CartridgeStockMovement, Db, find_by_id, find_by_name, store, quantity_of,
}
use infra_scope.Stock.Inventory.{blank_row}
use infra_scope.Stock.Balance.{IsBalanced, IsBalanced-keep, find_by_id-store}
use infra_scope.Stock.Keys.{IsKeyed, store-IsKeyed, find_by_id_of_name}
use infra_scope.Stock.Printers.{Discovered, synced_row, sync_found, sync_items}

module _ (cut : String → String) (now : ℕ) (new_id : ℕ → ℕ)
    (distinct : (m n : ℕ) → m < n → new_id m ≢ new_id n) where
  -- What holds of the table between two items.
  pub record IsSynced (db : Db) (created : ℕ) : Type 0 where
    pub balanced : IsBalanced db
    pub keyed : IsKeyed db.rows
    pub unused : (n : ℕ) → created ≤ n → find_by_id (new_id n) db.rows ≡ none

  -- A row that is stored and synchronised stays in its place.
  stored-IsSynced :
      (db : Db) (created : ℕ) (d : Discovered) (row : CartridgeStock)
      → find_by_id row.id db.rows ≡ some row
      → IsSynced db created
      → IsSynced (record db { rows = store (synced_row cut now d row) db.rows }) created
  unfolding synced_row
  stored-IsSynced db created d row here s = record {
    balanced = IsBalanced-keep db (synced_row cut now d row) s.balanced (ap quantity_of (sym here));
    keyed = store-IsKeyed (synced_row cut now d row) db.rows s.keyed (inl (row, here, refl));
    unused = λ n h. ground (
      arith,
      s.unused n,
      nat_eq.beq_iff row.id (new_id n),
      find_by_id-store (synced_row cut now d row) (new_id n) db.rows,
    );
  }

  pub sync_found-IsSynced :
      (db : Db) (created : ℕ) (d : Discovered) (found : Option CartridgeStock)
      → find_by_name d.cartridge_name db.rows ≡ found
      → IsSynced db created
      → let synced = sync_found cut now new_id d db.rows created found in
        IsSynced (record db { rows = synced.0 }) synced.1
  unfolding sync_found synced_row blank_row
  sync_found-IsSynced db created d none free s = record {
    balanced =
        IsBalanced-keep db (synced_row cut now d (blank_row (new_id created) now d.cartridge_name))
          s.balanced (ground (arith, s.unused created));
    keyed =
        store-IsKeyed (synced_row cut now d (blank_row (new_id created) now d.cartridge_name))
          db.rows s.keyed (inr (s.unused created (omega arith), free));
    unused = λ n h. ground (
      arith,
      s.unused n,
      find_by_id-store (synced_row cut now d (blank_row (new_id created) now d.cartridge_name))
          (new_id n) db.rows,
      distinct created n,
      nat_eq.beq_iff (new_id created) (new_id n),
    );
  }
  sync_found-IsSynced db created d (some row) found s =
      let here = find_by_id_of_name d.cartridge_name db.rows row s.keyed found in
      elim (Bool-cases row.is_active) [
        | inr archived ↦
            subst
              (λ b.
                IsSynced
                  (record db {
                    rows =
                        (if◌then◌else◌ {A = List CartridgeStock × ℕ} b
                          (store (synced_row cut now d row) db.rows, created) (db.rows, created)).0;
                  })
                  (if◌then◌else◌ {A = List CartridgeStock × ℕ} b
                    (store (synced_row cut now d row) db.rows, created) (db.rows, created)).1)
              (sym archived) s
        | inl active ↦
            subst
              (λ b.
                IsSynced
                  (record db {
                    rows =
                        (if◌then◌else◌ {A = List CartridgeStock × ℕ} b
                          (store (synced_row cut now d row) db.rows, created) (db.rows, created)).0;
                  })
                  (if◌then◌else◌ {A = List CartridgeStock × ℕ} b
                    (store (synced_row cut now d row) db.rows, created) (db.rows, created)).1)
              (sym active) (stored-IsSynced db created d row here s)
      ]

  pub sync_items-IsSynced :
      (movements : List CartridgeStockMovement) (ds : List Discovered) (rows : List CartridgeStock)
      (created : ℕ)
      → IsSynced (record { rows = rows; movements = movements }) created
      → let synced = sync_items cut now new_id ds rows created in
        IsSynced (record { rows = synced.0; movements = movements }) synced.1
  unfolding sync_items
  sync_items-IsSynced movements [] rows created s = s
  sync_items-IsSynced movements (d ∷ ds) rows created s =
      let found = find_by_name d.cartridge_name rows in
      let synced = sync_found cut now new_id d rows created found in
      sync_items-IsSynced movements ds synced.0 synced.1
        (sync_found-IsSynced (record { rows = rows; movements = movements }) created d found refl s)
