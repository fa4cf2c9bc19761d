-- ===== src/Stock/Tables.antt =====
-- CartridgeStock and CartridgeStockMovement of app/domains/inventory/models.py, and the queries that
-- the services make on them.
use infra_scope.Common.{
  ◌≡◌, refl, ◌⊎◌, inl, inr, ℕ, Bool, Option, none, some, List, [], ◌∷◌, String, if◌then◌else◌, ◌==◌,
  nat_eq, string_eq,
}
use infra_scope.Common.Int.{ℤ, pos, ◌+ℤ◌}

pub record CartridgeStock : Type 0 where
  pub id : ℕ
  pub cartridge_name : String
  pub toner_color : Option String
  pub compatible_printer_models : String
  pub printer_count : ℕ
  pub quantity_on_hand : ℕ
  pub minimum_stock : ℕ
  pub is_active : Bool
  pub last_synced_at : Option ℕ
  pub created_at : ℕ
  pub updated_at : Option ℕ

-- The texts of `reason`.
pub data Reason : Type 0 where
  adjust issue inventory : Reason

pub record CartridgeStockMovement : Type 0 where
  pub stock_id : ℕ
  pub delta : ℤ
  pub reason : Reason
  pub note : Option String
  pub created_by : Option String

pub record Db : Type 0 where
  pub rows : List CartridgeStock
  -- the latest movement first
  pub movements : List CartridgeStockMovement

pub data StockError : Type 0 where
  missing_error quantity_error duplicate_error : StockError

pub data Result {ℓ} (A : Type ℓ) : Type ℓ where
  ok : A → Result A
  err : StockError → Result A

infixl 5 ◌>>=◌
abbrev pub ◌>>=◌ {ℓ κ} : {A : Type ℓ} {B : Type κ} → Result A → (A → Result B) → Result B
ok a >>= f = f a
err e >>= f = err e

pub Result-cases {ℓ} :
    {A : Type ℓ} (r : Result A) → ((e : StockError) × (r ≡ err e)) ⊎ ((a : A) × (r ≡ ok a))
Result-cases (ok a) = inr (a, refl)
Result-cases (err e) = inl (e, refl)

-- `session.get(CartridgeStock, stock_id)`
unfoldable pub find_by_id : ℕ → List CartridgeStock → Option CartridgeStock
find_by_id stock_id [] = none
find_by_id stock_id (row ∷ rows) = if row.id == stock_id then some row else find_by_id stock_id rows

-- `_find_by_name`
unfoldable pub find_by_name : String → List CartridgeStock → Option CartridgeStock
find_by_name name [] = none
find_by_name name (row ∷ rows) =
    if row.cartridge_name == name then some row else find_by_name name rows

-- `session.add(row)` of a row that is stored, and of a new one.
unfoldable pub store : CartridgeStock → List CartridgeStock → List CartridgeStock
store row [] = row ∷ []
store row (old ∷ rows) = if old.id == row.id then row ∷ rows else old ∷ store row rows

-- The sum of the movements of one position.
unfoldable pub moved : ℕ → List CartridgeStockMovement → ℤ
moved stock_id [] = pos 0
moved stock_id (m ∷ ms) =
    if m.stock_id == stock_id then m.delta +ℤ moved stock_id ms else moved stock_id ms

abbrev pub quantity_of : Option CartridgeStock → ℕ
quantity_of none = 0
quantity_of (some row) = row.quantity_on_hand
