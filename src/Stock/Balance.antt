-- ===== src/Stock/Balance.antt =====
-- The ledger of the cartridge store: the movements of a position add up to what is on hand.
use infra_scope.Common.{ℕ, ◌≡◌, refl, some, List, [], ◌∷◌, if◌then◌else◌, ◌==◌, nat_eq, arith}
use infra_scope.Common.Int.{pos, ◌+ℤ◌}
use infra_scope.Stock.Tables.{
  CartridgeStock, CartridgeStockMovement, Db, find_by_id, store, moved, quantity_of,
}

pub find_by_id-id :
    (q : ℕ) (rows : List CartridgeStock) (row : CartridgeStock)
    → find_by_id q rows ≡ some row
    → row.id ≡ q
unfolding find_by_id
find_by_id-id q [] row h = ground arith
find_by_id-id q (r ∷ rows) row h = ground (arith, find_by_id-id q rows row)

pub find_by_id-store :
    (row : CartridgeStock) (q : ℕ) (rows : List CartridgeStock)
    → find_by_id q (store row rows) ≡ (if row.id == q then some row else find_by_id q rows)
unfolding find_by_id store
find_by_id-store row q [] = refl
find_by_id-store row q (r ∷ rows) = ground (arith, find_by_id-store row q rows)

-- For every position, also one that is not stored, the deltas of its movements add up to its
-- quantity on hand.
abbrev pub IsBalanced : Db → Type 0
IsBalanced db = (q : ℕ) → moved q db.movements ≡ pos (quantity_of (find_by_id q db.rows))

pub IsBalanced-keep :
    (db : Db) (row : CartridgeStock)
    → IsBalanced db
    → row.quantity_on_hand ≡ quantity_of (find_by_id row.id db.rows)
    → IsBalanced (record db { rows = store row db.rows })
IsBalanced-keep db row b h q = ground (arith, find_by_id-store row q db.rows, b q)

pub IsBalanced-post :
    (db : Db) (row : CartridgeStock) (m : CartridgeStockMovement)
    → IsBalanced db
    → m.stock_id ≡ row.id
    → pos row.quantity_on_hand ≡ m.delta +ℤ pos (quantity_of (find_by_id row.id db.rows))
    → IsBalanced (record { rows = store row db.rows; movements = m ∷ db.movements })
unfolding moved ◌+ℤ◌
IsBalanced-post db row m b same h q = ground (arith, find_by_id-store row q db.rows, b q, b row.id)
