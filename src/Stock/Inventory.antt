-- ===== src/Stock/Inventory.antt =====
-- app/services/cartridge_inventory.py: a stock-taking document and its reconciliation with the
-- catalogue.
use infra_scope.Common.{
  ℕ, ◌+◌, Bool, true, false, not, Option, none, some, List, [], ◌∷◌, String, if◌then◌else◌, ◌==◌,
  ◌&&◌, ◌||◌, nat_eq, string_eq, length, map,
}
use infra_scope.Common.Int.{pos, ◌-ℤ◌}
use infra_scope.Stock.Tables.{CartridgeStock, inventory, Db, find_by_id, find_by_name, store}

pub record CartridgeInventoryItem : Type 0 where
  pub cartridge_name : String
  pub toner_color : Option String
  pub quantity_on_hand : ℕ
  pub compatible_printer_models : String
  pub source_row : Option ℕ

pub record CartridgeInventoryDocument : Type 0 where
  pub position_count : ℕ
  pub quantity_total : ℕ
  pub items : List CartridgeInventoryItem

unfoldable pub names_contain : String → List CartridgeInventoryItem → Bool
names_contain name [] = false
names_contain name (item ∷ items) = item.cartridge_name == name || names_contain name items

unfoldable pub names_unique : List CartridgeInventoryItem → Bool
names_unique [] = true
names_unique (item ∷ items) = not (names_contain item.cartridge_name items) && names_unique items

unfoldable pub quantity_sum : List CartridgeInventoryItem → ℕ
quantity_sum [] = 0
quantity_sum (item ∷ items) = item.quantity_on_hand + quantity_sum items

-- `validate_totals_and_unique_names`: whether the document is accepted.
unfoldable pub validates : CartridgeInventoryDocument → Bool
validates d =
    names_unique d.items
    && d.position_count == length d.items
    && d.quantity_total == quantity_sum d.items

pub record Progress : Type 0 where
  pub db : Db
  pub created : ℕ
  pub updated : ℕ
  pub deactivated : ℕ
  pub movement_count : ℕ

pub record CartridgeInventoryImportResult : Type 0 where
  pub applied : Bool
  pub created : ℕ
  pub updated : ℕ
  pub deactivated : ℕ
  pub movements : ℕ
  pub active_positions : ℕ
  pub active_quantity : ℕ

-- `CartridgeStock(cartridge_name=...)`, with the defaults of the table.
unfoldable pub blank_row : ℕ → ℕ → String → CartridgeStock
blank_row new_id now name = record {
  id = new_id;
  cartridge_name = name;
  toner_color = none;
  compatible_printer_models = "";
  printer_count = 0;
  quantity_on_hand = 0;
  minimum_stock = 0;
  is_active = true;
  last_synced_at = none;
  created_at = now;
  updated_at = none;
}

-- A movement of the difference, if there is one.
unfoldable pub post : CartridgeStock → ℕ → Option String → Option String → Progress → Progress
post row previous_quantity note actor p =
    if row.quantity_on_hand == previous_quantity
    then record p { db = record { rows = store row p.db.rows; movements = p.db.movements } }
    else record p {
      db = record {
        rows = store row p.db.rows;
        movements =
            record {
              stock_id = row.id;
              delta = pos row.quantity_on_hand -ℤ pos previous_quantity;
              reason = inventory;
              note = note;
              created_by = actor;
            }
            ∷ p.db.movements;
      };
      movement_count = p.movement_count + 1;
    }

unfoldable pub counted_row : CartridgeStock → CartridgeInventoryItem → ℕ → CartridgeStock
counted_row row item now = record row {
  toner_color = item.toner_color;
  compatible_printer_models = item.compatible_printer_models;
  quantity_on_hand = item.quantity_on_hand;
  is_active = true;
  last_synced_at = some now;
  updated_at = some now;
}

unfoldable pub closed_row : CartridgeStock → ℕ → CartridgeStock
closed_row row now = record row { quantity_on_hand = 0; is_active = false; updated_at = some now }

unfoldable pub active_positions : List CartridgeStock → ℕ
active_positions [] = 0
active_positions (row ∷ rows) =
    if row.is_active then active_positions rows + 1 else active_positions rows

unfoldable pub active_quantity : List CartridgeStock → ℕ
active_quantity [] = 0
active_quantity (row ∷ rows) =
    if row.is_active then row.quantity_on_hand + active_quantity rows else active_quantity rows

-- `new_id n` is the identifier of the n-th row that the run creates; `note` is the
-- text of `_movement_note` for a source row.
module _ (new_id : ℕ → ℕ) (now : ℕ) (note : Option ℕ → String) (actor : Option String) where
  -- The body of the first loop.
  unfoldable pub count_item : CartridgeInventoryItem → Progress → Progress
  unfolding blank_row counted_row post
  count_item item p = elim (find_by_name item.cartridge_name p.db.rows) [
    | none ↦
        post (counted_row (blank_row (new_id p.created) now item.cartridge_name) item now) 0
          (some (note item.source_row)) actor (record p { created = p.created + 1 })
    | some row ↦
        post (counted_row row item now) row.quantity_on_hand (some (note item.source_row)) actor
          (record p { updated = p.updated + 1 })
  ]

  unfoldable pub count_items : List CartridgeInventoryItem → Progress → Progress
  count_items [] p = p
  count_items (item ∷ items) p = count_items items (count_item item p)

  -- The body of the second loop, for a row that was stored when the run began.
  unfoldable pub close_row : List CartridgeInventoryItem → ℕ → Progress → Progress
  unfolding closed_row post
  close_row items row_id p = elim (find_by_id row_id p.db.rows) [
    | none ↦ p
    | some row ↦
        if not row.is_active || names_contain row.cartridge_name items
        then p
        else post (closed_row row now) row.quantity_on_hand (some (note none)) actor
            (record p { deactivated = p.deactivated + 1 })
  ]

  unfoldable pub close_rows : List CartridgeInventoryItem → List ℕ → Progress → Progress
  close_rows items [] p = p
  close_rows items (row_id ∷ ids) p = close_rows items ids (close_row items row_id p)

  -- Both loops, before the commit or the rollback.
  unfoldable pub reconciled : Db → CartridgeInventoryDocument → Bool → Progress
  unfolding count_items close_rows
  reconciled db document deactivate_missing =
      let counted =
        count_items document.items
          (record { db = db; created = 0; updated = 0; deactivated = 0; movement_count = 0 }) in
      if deactivate_missing
      then close_rows document.items (map (λ row. row.id) db.rows) counted
      else counted

  unfoldable pub reconcile_cartridge_inventory :
      Db → CartridgeInventoryDocument → Bool → Bool → Db × CartridgeInventoryImportResult
  unfolding active_positions active_quantity
  reconcile_cartridge_inventory db document apply deactivate_missing =
      let p = reconciled db document deactivate_missing in
      (
        if apply then p.db else db,
        record {
          applied = apply;
          created = p.created;
          updated = p.updated;
          deactivated = p.deactivated;
          movements = p.movement_count;
          active_positions = active_positions p.db.rows;
          active_quantity = active_quantity p.db.rows;
        },
      )
