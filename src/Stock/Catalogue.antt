-- ===== src/Stock/Catalogue.antt =====
-- The operations of app/services/cartridge_stock.py on one position.
use infra_scope.Common.{
  ℕ, ◌-◌, Bool, true, false, Option, none, some, List, ◌∷◌, String, ltb, if◌then◌else◌, ◌==◌,
  nat_eq, string_eq,
}
use infra_scope.Common.Int.{pos, ◌-ℤ◌}
use infra_scope.Stock.Tables.{
  CartridgeStock, CartridgeStockMovement, adjust, issue, Db, Result, ok, err, missing_error,
  quantity_error, duplicate_error, ◌>>=◌, find_by_id, find_by_name, store,
}

pub record CartridgeStockCreate : Type 0 where
  pub cartridge_name : String
  pub toner_color : Option String
  pub compatible_printer_models : String
  pub quantity_on_hand : ℕ
  pub minimum_stock : ℕ
  pub note : Option String

-- A field that is unset, or null where null means nothing, is `none`. `toner_color` tells an unset
-- field (`none`) from an explicit null (`some none`).
pub record CartridgeStockUpdate : Type 0 where
  pub cartridge_name : Option String
  pub toner_color : Option (Option String)
  pub compatible_printer_models : Option String
  pub is_active : Option Bool
  pub quantity_on_hand : Option ℕ
  pub minimum_stock : Option ℕ
  pub note : Option String

pub record CartridgeIssueRequest : Type 0 where
  pub quantity : ℕ
  pub note : Option String

abbrev pub get_or {ℓ} : {A : Type ℓ} → Option A → A → A
get_or none default = default
get_or (some a) default = a

-- `get_cartridge_stock_or_raise`
unfoldable pub get_or_raise : List CartridgeStock → ℕ → Result CartridgeStock
get_or_raise rows stock_id = elim (find_by_id stock_id rows) [
  | none ↦ err missing_error
  | some row ↦ ok row
]

-- `payload.note or "Начальный остаток"`: an empty text counts as none.
abbrev pub opening_note : Option String → String
opening_note none = "Начальный остаток"
opening_note (some note) = if note == "" then "Начальный остаток" else note

unfoldable pub new_row : ℕ → ℕ → CartridgeStockCreate → CartridgeStock
new_row new_id now payload = record {
  id = new_id;
  cartridge_name = payload.cartridge_name;
  toner_color = payload.toner_color;
  compatible_printer_models = payload.compatible_printer_models;
  printer_count = 0;
  quantity_on_hand = payload.quantity_on_hand;
  minimum_stock = payload.minimum_stock;
  is_active = true;
  last_synced_at = none;
  created_at = now;
  updated_at = none;
}

unfoldable pub create_cartridge_stock :
    Db → ℕ → ℕ → CartridgeStockCreate → Option String → Result (Db × CartridgeStock)
unfolding new_row
create_cartridge_stock db new_id now payload actor =
    elim (find_by_name payload.cartridge_name db.rows) [
      | some clash ↦ err duplicate_error
      | none ↦
          let row = new_row new_id now payload in
          let opening : CartridgeStockMovement = record {
            stock_id = new_id;
            delta = pos payload.quantity_on_hand;
            reason = adjust;
            note = some (opening_note payload.note);
            created_by = actor;
          } in
          ok (
            record {
              rows = store row db.rows;
              movements =
                  if payload.quantity_on_hand == 0 then db.movements else opening ∷ db.movements;
            },
            row,
          )
    ]

unfoldable pub deactivate_cartridge_stock : Db → ℕ → ℕ → Result (Db × CartridgeStock)
unfolding get_or_raise
deactivate_cartridge_stock db now stock_id = do
  row ← get_or_raise db.rows stock_id
  let row' = record row { is_active = false; updated_at = some now }
  ok (record db { rows = store row' db.rows }, row')

-- The name that an update asks for: refused if another row has it.
unfoldable pub rename : List CartridgeStock → CartridgeStock → Option String → Result CartridgeStock
rename rows row none = ok row
rename rows row (some name) =
    if name == row.cartridge_name then ok row else elim (find_by_name name rows) [
      | none ↦ ok (record row { cartridge_name = name })
      | some clash ↦
          if clash.id == row.id
          then ok (record row { cartridge_name = name })
          else err duplicate_error
    ]

-- The fields that an update sets when they are given, the quantity included.
unfoldable pub assign_fields : CartridgeStock → CartridgeStockUpdate → ℕ → CartridgeStock
assign_fields row payload now = record row {
  toner_color = get_or payload.toner_color row.toner_color;
  compatible_printer_models =
      get_or payload.compatible_printer_models row.compatible_printer_models;
  is_active = get_or payload.is_active row.is_active;
  quantity_on_hand = get_or payload.quantity_on_hand row.quantity_on_hand;
  minimum_stock = get_or payload.minimum_stock row.minimum_stock;
  updated_at = some now;
}

-- The `adjust` movement of an update, if the quantity changes.
unfoldable pub adjustment :
    CartridgeStock
    → CartridgeStockUpdate
    → Option String
    → List CartridgeStockMovement
    → List CartridgeStockMovement
adjustment row payload actor movements =
    let quantity = get_or payload.quantity_on_hand row.quantity_on_hand in
    if quantity == row.quantity_on_hand
    then movements
    else record {
      stock_id = row.id;
      delta = pos quantity -ℤ pos row.quantity_on_hand;
      reason = adjust;
      note = payload.note;
      created_by = actor;
    }
      ∷ movements

unfoldable pub update_cartridge_stock :
    Db → ℕ → ℕ → CartridgeStockUpdate → Option String → Result (Db × CartridgeStock)
unfolding get_or_raise
update_cartridge_stock db now stock_id payload actor = do
  row ← get_or_raise db.rows stock_id
  renamed ← rename db.rows row payload.cartridge_name
  let row' = assign_fields renamed payload now
  ok (
    record { rows = store row' db.rows; movements = adjustment row payload actor db.movements },
    row',
  )

unfoldable pub issue_cartridge_stock :
    Db → ℕ → ℕ → CartridgeIssueRequest → Option String → Result (Db × CartridgeStock)
unfolding get_or_raise
issue_cartridge_stock db now stock_id payload actor = do
  row ← get_or_raise db.rows stock_id
  let row' = record row {
    quantity_on_hand = row.quantity_on_hand - payload.quantity;
    updated_at = some now;
  }
  let issued : CartridgeStockMovement = record {
    stock_id = row.id;
    delta = pos 0 -ℤ pos payload.quantity;
    reason = issue;
    note = payload.note;
    created_by = actor;
  }
  if ltb row.quantity_on_hand payload.quantity
      then err quantity_error
      else ok (record { rows = store row' db.rows; movements = issued ∷ db.movements }, row')
