-- ===== src/Stock/Printers.antt =====
-- `sync_cartridge_stock_from_printers` of app/services/cartridge_stock.py. The clean-up of white space
-- and the cut to a length are arguments; texts are compared by their code points.
use Prim.Native.String.{compare, ◌++◌}
use Prim.Native.Nat.{Ordering}
use infra_scope.Common.{
  ℕ, suc, ◌+◌, Bool, true, false, Option, none, some, List, [], ◌∷◌, String, if◌then◌else◌, ◌==◌,
  string_eq,
}
use infra_scope.Stock.Tables.{CartridgeStock, Db, find_by_name, store}
use infra_scope.Stock.Inventory.{blank_row}

-- The columns that are read; `is_laser` is `printer_type == "laser"`.
pub record Printer : Type 0 where
  pub is_laser : Bool
  pub model : String
  pub toner_black_name : Option String
  pub toner_cyan_name : Option String
  pub toner_magenta_name : Option String
  pub toner_yellow_name : Option String

-- One name: an entry of `discovered` with its set of models.
pub record Discovered : Type 0 where
  pub cartridge_name : String
  pub toner_color : String
  pub printer_count : ℕ
  pub models : List String

abbrev pub is_before : String → String → Bool
is_before a b = elim (compare a b) [ Ordering.gt ↦ false | _ ↦ true ]

-- `clean` is the join of the words, cut at 128 characters.
abbrev pub normalize_cartridge_name : (String → String) → Option String → Option String
normalize_cartridge_name clean none = none
normalize_cartridge_name clean (some value) = if clean value == "" then none else some (clean value)

abbrev pub add_model : String → List String → List String
add_model model [] = model ∷ []
add_model model (m ∷ models) = if m == model then m ∷ models else m ∷ add_model model models

-- The first color of a name stays.
unfoldable pub discover : String → String → String → List Discovered → List Discovered
discover name color model [] =
    record { cartridge_name = name; toner_color = color; printer_count = 1; models = model ∷ [] }
    ∷ []
discover name color model (d ∷ ds) =
    if d.cartridge_name == name
    then record d { printer_count = d.printer_count + 1; models = add_model model d.models } ∷ ds
    else d ∷ discover name color model ds

abbrev pub discover_field : Option String → String → String → List Discovered → List Discovered
discover_field none color model ds = ds
discover_field (some name) color model ds = discover name color model ds

-- _TONER_FIELDS in turn.
unfoldable pub discover_printer : (String → String) → Printer → List Discovered → List Discovered
unfolding discover
discover_printer clean p ds =
    let black =
      discover_field (normalize_cartridge_name clean p.toner_black_name) "black" p.model ds in
    let cyan =
      discover_field (normalize_cartridge_name clean p.toner_cyan_name) "cyan" p.model black in
    let magenta =
      discover_field (normalize_cartridge_name clean p.toner_magenta_name) "magenta" p.model cyan in
    discover_field (normalize_cartridge_name clean p.toner_yellow_name) "yellow" p.model magenta

unfoldable pub discover_all : (String → String) → List Printer → List Discovered → List Discovered
unfolding discover_printer
discover_all clean [] ds = ds
discover_all clean (p ∷ printers) ds =
    discover_all clean printers (if p.is_laser then discover_printer clean p ds else ds)

abbrev pub insert_text : String → List String → List String
insert_text t [] = t ∷ []
insert_text t (u ∷ us) = if is_before t u then t ∷ u ∷ us else u ∷ insert_text t us

abbrev pub sort_texts : List String → List String
sort_texts [] = []
sort_texts (t ∷ ts) = insert_text t (sort_texts ts)

abbrev pub insert_item : Discovered → List Discovered → List Discovered
insert_item d [] = d ∷ []
insert_item d (e ∷ es) =
    if is_before d.cartridge_name e.cartridge_name then d ∷ e ∷ es else e ∷ insert_item d es

-- `sorted(discovered.items())`; no two items have one name.
abbrev pub sort_items : List Discovered → List Discovered
sort_items [] = []
sort_items (d ∷ ds) = insert_item d (sort_items ds)

-- `", ".join(texts)`
abbrev pub join : List String → String
join [] = ""
join (t ∷ []) = t
join (t ∷ u ∷ ts) = t ++ ", " ++ join (u ∷ ts)

module _ (cut : String → String) (now : ℕ) where
  unfoldable pub synced_row : Discovered → CartridgeStock → CartridgeStock
  synced_row d row = record row {
    toner_color = some d.toner_color;
    compatible_printer_models = cut (join (sort_texts d.models));
    printer_count = d.printer_count;
    is_active = true;
    last_synced_at = some now;
    updated_at = some now;
  }

  -- The rows, by the row of the name that is stored. `created` counts the new ones.
  unfoldable pub sync_found :
      (ℕ → ℕ)
      → Discovered
      → List CartridgeStock
      → ℕ
      → Option CartridgeStock
      → List CartridgeStock × ℕ
  unfolding synced_row blank_row
  sync_found new_id d rows created none =
      (store (synced_row d (blank_row (new_id created) now d.cartridge_name)) rows, suc created)
  sync_found new_id d rows created (some row) =
      if row.is_active then (store (synced_row d row) rows, created) else (rows, created)

  unfoldable pub sync_items :
      (ℕ → ℕ) → List Discovered → List CartridgeStock → ℕ → List CartridgeStock × ℕ
  unfolding sync_found
  sync_items new_id [] rows created = (rows, created)
  sync_items new_id (d ∷ ds) rows created =
      let (rows', created') =
        sync_found new_id d rows created (find_by_name d.cartridge_name rows) in
      sync_items new_id ds rows' created'

  unfoldable pub sync_cartridge_stock_from_printers :
      (ℕ → ℕ) → (String → String) → List Printer → Db → Db
  unfolding sync_items discover_all
  sync_cartridge_stock_from_printers new_id clean printers db = record db {
    rows = (sync_items new_id (sort_items (discover_all clean printers [])) db.rows 0).0;
  }
