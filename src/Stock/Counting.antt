-- ===== src/Stock/Counting.antt =====
-- What the two loops of app/services/cartridge_inventory.py keep and what they reach.
use infra_scope.Common.{
  All, ℕ, ◌+◌, ◌≤◌, ◌<◌, ◌≡◌, ◌≢◌, refl, ◌∙◌, true, false, Option, none, some, List, [], ◌∷◌,
  nat_eq, string_eq, arith, Option-cases, inl, inr, String,
}
use infra_scope.Common.Int.{◌+ℤ◌, ◌-ℤ◌}
use infra_scope.Stock.Tables.{CartridgeStock, find_by_id, find_by_name, store, moved, quantity_of}
use infra_scope.Stock.Balance.{IsBalanced, find_by_id-store}
use infra_scope.Stock.Keys.{
  IsKeyed, Fits, find_by_id_of_name, find_by_name-store, find_by_name-name, store-IsKeyed,
}
use infra_scope.Stock.Inventory.{
  CartridgeInventoryItem, Progress, names_contain, names_unique, blank_row, post, counted_row,
  count_item, count_items,
}

pub post_db :
    (row : CartridgeStock) (previous : ℕ) (text actor : Option String) (p : Progress)
    → ((post row previous text actor p).db.rows ≡ store row p.db.rows)
      × ((post row previous text actor p).created ≡ p.created)
unfolding post
post_db row previous text actor p = ground arith

pub post-IsBalanced :
    (row : CartridgeStock) (previous : ℕ) (text actor : Option String) (p : Progress)
    → IsBalanced p.db
    → previous ≡ quantity_of (find_by_id row.id p.db.rows)
    → IsBalanced (post row previous text actor p).db
unfolding post moved ◌+ℤ◌ ◌-ℤ◌
post-IsBalanced row previous text actor p b h q =
    ground (arith, find_by_id-store row q p.db.rows, b q, b row.id)

-- Between two rounds: the ledger is balanced, keys are unique, and the identifiers to come are
-- new.
pub record IsSound (new_id : ℕ → ℕ) (p : Progress) : Type 0 where
  pub balanced : IsBalanced p.db
  pub keyed : IsKeyed p.db.rows
  pub unused : (n : ℕ) → p.created ≤ n → find_by_id (new_id n) p.db.rows ≡ none

-- The row of an item is stored, active, and holds the quantity that was counted.
abbrev pub IsCounted : List CartridgeStock → CartridgeInventoryItem → Type 0
IsCounted rows item =
    (row : CartridgeStock) × (find_by_name item.cartridge_name rows ≡ some row)
    × (row.quantity_on_hand ≡ item.quantity_on_hand)
    × (row.is_active ≡ true)

module _ (new_id : ℕ → ℕ) (distinct : (m n : ℕ) → m < n → new_id m ≢ new_id n) (now : ℕ)
    (note : Option ℕ → String) (actor : Option String) where
  -- The row that `count_item` stores.
  placed : CartridgeInventoryItem → Progress → CartridgeStock
  placed item p = elim (find_by_name item.cartridge_name p.db.rows) [
    | none ↦ counted_row (blank_row (new_id p.created) now item.cartridge_name) item now
    | some row ↦ counted_row row item now
  ]

  placed_fields :
      (item : CartridgeInventoryItem) (p : Progress)
      → ((placed item p).cartridge_name ≡ item.cartridge_name)
        × ((placed item p).quantity_on_hand ≡ item.quantity_on_hand)
        × ((placed item p).is_active ≡ true)
  unfolding placed counted_row blank_row
  placed_fields item p = elim (Option-cases (find_by_name item.cartridge_name p.db.rows)) [
    | inl absent ↦ ground arith
    | inr (row, found) ↦ ground (arith, find_by_name-name item.cartridge_name p.db.rows row found)
  ]

  count_item_rows :
      (item : CartridgeInventoryItem) (p : Progress)
      → (count_item new_id now note actor item p).db.rows ≡ store (placed item p) p.db.rows
  unfolding count_item placed
  count_item_rows item p = ground arith

  placed-Fits :
      (item : CartridgeInventoryItem) (p : Progress)
      → IsSound new_id p
      → Fits (placed item p) p.db.rows
  unfolding placed counted_row blank_row
  placed-Fits item p s = elim (Option-cases (find_by_name item.cartridge_name p.db.rows)) [
    | inl absent ↦ rw (absent, placed) (inr (s.unused p.created (omega arith), absent))
    | inr (row, found) ↦
        rw (found, placed)
          (inl (row, find_by_id_of_name item.cartridge_name p.db.rows row s.keyed found, refl))
  ]

  count_item-IsBalanced :
      (item : CartridgeInventoryItem) (p : Progress)
      → IsSound new_id p
      → IsBalanced (count_item new_id now note actor item p).db
  unfolding count_item
  count_item-IsBalanced item p s =
      elim (Option-cases (find_by_name item.cartridge_name p.db.rows)) [
        | inl absent ↦
            rw (absent, count_item)
              (post-IsBalanced
                (counted_row (blank_row (new_id p.created) now item.cartridge_name) item now) 0
                (some (note item.source_row)) actor (record p { created = p.created + 1 })
                s.balanced (ground (arith, s.unused p.created)))
        | inr (row, found) ↦
            rw (found, count_item)
              (post-IsBalanced (counted_row row item now) row.quantity_on_hand
                (some (note item.source_row)) actor (record p { updated = p.updated + 1 })
                s.balanced
                (ground
                  (arith, find_by_id_of_name item.cartridge_name p.db.rows row s.keyed found)))
      ]

  count_item-unused :
      (item : CartridgeInventoryItem) (p : Progress) (n : ℕ)
      → IsSound new_id p
      → (count_item new_id now note actor item p).created ≤ n
      → find_by_id (new_id n) (count_item new_id now note actor item p).db.rows ≡ none
  unfolding count_item
  count_item-unused item p n s = elim (Option-cases (find_by_name item.cartridge_name p.db.rows)) [
    | inl absent ↦ λ later. ground (
      arith,
      absent,
      s.unused n,
      distinct p.created n,
      find_by_id-store (counted_row (blank_row (new_id p.created) now item.cartridge_name) item now)
          (new_id n) p.db.rows,
    )
    | inr (row, found) ↦ λ later. ground (
      arith,
      found,
      s.unused n,
      find_by_id_of_name item.cartridge_name p.db.rows row s.keyed found,
      find_by_id-store (counted_row row item now) (new_id n) p.db.rows,
    )
  ]

  count_item-IsSound :
      (item : CartridgeInventoryItem) (p : Progress)
      → IsSound new_id p
      → IsSound new_id (count_item new_id now note actor item p)
  count_item-IsSound item p s = record {
    balanced = count_item-IsBalanced item p s;
    keyed =
        rw (count_item_rows item p)
          (store-IsKeyed (placed item p) p.db.rows s.keyed (placed-Fits item p s));
    unused = λ n. count_item-unused item p n s;
  }

  pub count_items-IsSound :
      (items : List CartridgeInventoryItem) (p : Progress)
      → IsSound new_id p
      → IsSound new_id (count_items new_id now note actor items p)
  unfolding count_items
  count_items-IsSound [] p s = s
  count_items-IsSound (item ∷ items) p s =
      count_items-IsSound items (count_item new_id now note actor item p)
        (count_item-IsSound item p s)

  -- A name that the items do not have keeps its row.
  pub find-count_items_ne :
      (n : String) (items : List CartridgeInventoryItem) (p : Progress)
      → IsSound new_id p
      → names_contain n items ≡ false
      → find_by_name n (count_items new_id now note actor items p).db.rows
        ≡ find_by_name n p.db.rows
  unfolding count_items names_contain
  find-count_items_ne n [] p s h = refl
  find-count_items_ne n (item ∷ items) p s h =
      find-count_items_ne n items (count_item new_id now note actor item p)
        (count_item-IsSound item p s) (ground arith)
      ∙ rw (count_item_rows item p) (
          ground (
            arith,
            find_by_name-store (placed item p) n p.db.rows s.keyed (placed-Fits item p s),
            placed_fields item p,
          ))

  pub count_items-IsCounted :
      (items : List CartridgeInventoryItem) (p : Progress)
      → IsSound new_id p
      → names_unique items ≡ true
      → All (IsCounted (count_items new_id now note actor items p).db.rows) items
  unfolding count_items names_unique
  count_items-IsCounted [] p s u = tt
  count_items-IsCounted (item ∷ items) p s u =
      let next = count_item new_id now note actor item p in
      let (named, counted, active) = placed_fields item p in
      let kept : find_by_name item.cartridge_name
            (count_items new_id now note actor items next).db.rows
          ≡ find_by_name item.cartridge_name next.db.rows =
        find-count_items_ne item.cartridge_name items next (count_item-IsSound item p s)
          (ground arith) in
      let here : find_by_name item.cartridge_name next.db.rows ≡ some (placed item p) =
        rw (count_item_rows item p) (
          ground (
            arith,
            find_by_name-store (placed item p) item.cartridge_name p.db.rows s.keyed
                (placed-Fits item p s),
            named,
            string_eq.beq_iff (placed item p).cartridge_name item.cartridge_name,
          )) in
      (
        (placed item p, kept ∙ here, counted, active),
        count_items-IsCounted items next (count_item-IsSound item p s) (ground arith),
      )
