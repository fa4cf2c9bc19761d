-- ===== src/Stock/Keys.antt =====
-- The keys of the catalogue: identifiers and names that no two rows share (the primary key and the
-- UNIQUE constraint of `CartridgeStock` in app/domains/inventory/models.py).
use infra_scope.Common.{
  ℕ, ◌≡◌, refl, true, false, none, some, List, [], ◌∷◌, if◌then◌else◌, ◌==◌, nat_eq, string_eq,
  arith, Bool-cases, inl, inr, ◌⊎◌, String,
}
use infra_scope.Stock.Tables.{CartridgeStock, find_by_id, find_by_name, store}
use infra_scope.Stock.Balance.{find_by_id-store}

abbrev pub IsKeyed : List CartridgeStock → Type 0
IsKeyed [] = Unit
IsKeyed (r ∷ rows) =
    (find_by_id r.id rows ≡ none) × (find_by_name r.cartridge_name rows ≡ none) × IsKeyed rows

pub find_by_name-name :
    (n : String) (rows : List CartridgeStock) (row : CartridgeStock)
    → find_by_name n rows ≡ some row
    → row.cartridge_name ≡ n
unfolding find_by_name
find_by_name-name n [] row h = ground arith
find_by_name-name n (r ∷ rows) row h =
    ground (arith, find_by_name-name n rows row, string_eq.beq_iff r.cartridge_name n)

-- In keyed rows, a row found by its name is found by its identifier, and the other way round.
pub find_by_id_of_name :
    (n : String) (rows : List CartridgeStock) (row : CartridgeStock)
    → IsKeyed rows
    → find_by_name n rows ≡ some row
    → find_by_id row.id rows ≡ some row
unfolding find_by_name find_by_id
find_by_id_of_name n [] row k h = ground arith
find_by_id_of_name n (r ∷ rows) row k h = ground (arith, find_by_id_of_name n rows row k.2)

pub find_by_name_of_id :
    (q : ℕ) (rows : List CartridgeStock) (row : CartridgeStock)
    → IsKeyed rows
    → find_by_id q rows ≡ some row
    → find_by_name row.cartridge_name rows ≡ some row
unfolding find_by_name find_by_id
find_by_name_of_id q [] row k h = ground arith
find_by_name_of_id q (r ∷ rows) row k h = ground (
  arith,
  find_by_name_of_id q rows row k.2,
  string_eq.beq_iff r.cartridge_name row.cartridge_name,
)

-- A row may be stored if it takes the place of one with its identifier and its name, or if both
-- are new.
abbrev pub Fits : CartridgeStock → List CartridgeStock → Type 0
Fits row rows =
    ((old : CartridgeStock) × (find_by_id row.id rows ≡ some old)
      × (old.cartridge_name ≡ row.cartridge_name))
    ⊎ ((find_by_id row.id rows ≡ none) × (find_by_name row.cartridge_name rows ≡ none))

find_by_name-store_old :
    (row old : CartridgeStock) (n : String) (rows : List CartridgeStock)
    → IsKeyed rows
    → find_by_id row.id rows ≡ some old
    → old.cartridge_name ≡ row.cartridge_name
    → find_by_name n (store row rows)
      ≡ (if row.cartridge_name == n then some row else find_by_name n rows)
unfolding find_by_id find_by_name store
find_by_name-store_old row old n [] k h same = ground arith
find_by_name-store_old row old n (r ∷ rows) k h same = ground (
  arith,
  find_by_name-store_old row old n rows k.2,
  find_by_name_of_id row.id rows old k.2,
  string_eq.beq_iff r.cartridge_name n,
  string_eq.beq_iff row.cartridge_name n,
)

find_by_name-store_new :
    (row : CartridgeStock) (n : String) (rows : List CartridgeStock)
    → find_by_id row.id rows ≡ none
    → find_by_name row.cartridge_name rows ≡ none
    → find_by_name n (store row rows)
      ≡ (if row.cartridge_name == n then some row else find_by_name n rows)
unfolding find_by_id find_by_name store
find_by_name-store_new row n [] h new = refl
find_by_name-store_new row n (r ∷ rows) h new = ground (
  arith,
  find_by_name-store_new row n rows,
  string_eq.beq_iff r.cartridge_name n,
  string_eq.beq_iff row.cartridge_name n,
  string_eq.beq_iff r.cartridge_name row.cartridge_name,
)

pub find_by_name-store :
    (row : CartridgeStock) (n : String) (rows : List CartridgeStock)
    → IsKeyed rows
    → Fits row rows
    → find_by_name n (store row rows)
      ≡ (if row.cartridge_name == n then some row else find_by_name n rows)
find_by_name-store row n rows k (inl (old, h, same)) =
    find_by_name-store_old row old n rows k h same
find_by_name-store row n rows k (inr (h, new)) = find_by_name-store_new row n rows h new

Fits-tail :
    (row r : CartridgeStock) (rows : List CartridgeStock)
    → (r.id == row.id) ≡ false
    → Fits row (r ∷ rows)
    → Fits row rows
unfolding find_by_id find_by_name
Fits-tail row r rows other (inl (old, h, same)) = inl (old, ground arith, same)
Fits-tail row r rows other (inr (h, new)) = inr (ground arith, ground arith)

-- A row that fits behind `r` has another name than `r`.
name-ne :
    (row r : CartridgeStock) (rows : List CartridgeStock)
    → IsKeyed (r ∷ rows)
    → (r.id == row.id) ≡ false
    → Fits row (r ∷ rows)
    → (row.cartridge_name == r.cartridge_name) ≡ false
unfolding find_by_id find_by_name
name-ne row r rows k other (inl (old, h, same)) = ground (
  arith,
  find_by_name_of_id row.id rows old k.2,
  string_eq.beq_iff row.cartridge_name r.cartridge_name,
)
name-ne row r rows k other (inr (h, new)) = ground (
  arith,
  string_eq.beq_iff row.cartridge_name r.cartridge_name,
  string_eq.beq_iff r.cartridge_name row.cartridge_name,
)

head_kept :
    (row r : CartridgeStock) (rows : List CartridgeStock)
    → IsKeyed (r ∷ rows)
    → (r.id == row.id) ≡ true
    → Fits row (r ∷ rows)
    → IsKeyed (row ∷ rows)
unfolding find_by_id
head_kept row r rows k here (inl (old, h, same)) = (ground arith, ground arith, k.2)
head_kept row r rows k here (inr (h, new)) = absurd (ground arith)

pub store-IsKeyed :
    (row : CartridgeStock) (rows : List CartridgeStock)
    → IsKeyed rows
    → Fits row rows
    → IsKeyed (store row rows)
unfolding store find_by_id find_by_name
store-IsKeyed row [] k f = (refl, refl, tt)
store-IsKeyed row (r ∷ rows) k f = elim (Bool-cases (r.id == row.id)) [
  | inl here ↦ rw here (head_kept row r rows k here f)
  | inr other ↦
      let f' = Fits-tail row r rows other f in
      rw other (
        ground (arith, find_by_id-store row r.id rows),
        ground (
          arith,
          find_by_name-store row r.cartridge_name rows k.2 f',
          name-ne row r rows k other f,
        ),
        store-IsKeyed row rows k.2 f',
      )
]

find_by_name-store-none :
    (row : CartridgeStock) (n : String) (rows : List CartridgeStock)
    → find_by_name n rows ≡ none
    → (row.cartridge_name == n) ≡ false
    → find_by_name n (store row rows) ≡ none
unfolding find_by_name store
find_by_name-store-none row n [] h other = ground arith
find_by_name-store-none row n (r ∷ rows) h other =
    ground (arith, find_by_name-store-none row n rows)

-- A stored row may take a name that no row has.
pub store-IsKeyed_renamed :
    (row : CartridgeStock) (rows : List CartridgeStock)
    → IsKeyed rows
    → find_by_name row.cartridge_name rows ≡ none
    → IsKeyed (store row rows)
unfolding find_by_id find_by_name store
store-IsKeyed_renamed row [] k h = (refl, refl, tt)
store-IsKeyed_renamed row (r ∷ rows) k h = elim (Bool-cases (r.id == row.id)) [
  | inl here ↦ rw here (ground arith, ground arith, k.2)
  | inr other ↦ rw other (
    ground (arith, find_by_id-store row r.id rows),
    find_by_name-store-none row r.cartridge_name rows k.1 (
        ground (
          arith,
          string_eq.beq_iff r.cartridge_name row.cartridge_name,
          string_eq.beq_iff row.cartridge_name r.cartridge_name,
        )),
    store-IsKeyed_renamed row rows k.2 (ground arith),
  )
]
