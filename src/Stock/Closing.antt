-- ===== src/Stock/Closing.antt =====
-- The second loop of app/services/cartridge_inventory.py, and the whole reconciliation.
use infra_scope.Common.{
  ℕ, ◌+◌, ◌≡◌, refl, true, false, ◌||◌, not, Option, none, some, List, nat_eq, string_eq, arith,
  Bool-cases, Option-cases, inl, inr, String,
}
use infra_scope.Stock.Tables.{CartridgeStock, find_by_id, find_by_name, store}
use infra_scope.Stock.Balance.{IsBalanced, find_by_id-store, find_by_id-id}
use infra_scope.Stock.Keys.{Fits, find_by_name-store, store-IsKeyed}
use infra_scope.Stock.Inventory.{
  CartridgeInventoryItem, Progress, names_contain, closed_row, close_row,
}
use infra_scope.Stock.Counting.{IsSound, post-IsBalanced}

-- A row that the items do not name is inactive.
abbrev pub IsClosed : List CartridgeInventoryItem → List CartridgeStock → ℕ → Type 0
IsClosed items rows q =
    (row : CartridgeStock)
    → find_by_id q rows ≡ some row
    → names_contain row.cartridge_name items ≡ false
    → row.is_active ≡ false

module _ (new_id : ℕ → ℕ) (now : ℕ) (note : Option ℕ → String) (actor : Option String)
    (items : List CartridgeInventoryItem) where
  -- What a round of the loop does to the rows: nothing, or it stores the closed row.
  pub data Closes (q : ℕ) (p p' : Progress) : Type 0 where
    kept : p'.db ≡ p.db → p'.created ≡ p.created → IsClosed items p.db.rows q → Closes q p p'
    closed :
        (row : CartridgeStock)
        → find_by_id q p.db.rows ≡ some row
        → names_contain row.cartridge_name items ≡ false
        → p'.db.rows ≡ store (closed_row row now) p.db.rows
        → p'.created ≡ p.created
        → IsBalanced p'.db
        → Closes q p p'

  pub close_row-Closes :
      (q : ℕ) (p : Progress)
      → IsSound new_id p
      → Closes q p (close_row new_id now note actor items q p)
  unfolding close_row
  close_row-Closes q p s = elim (Option-cases (find_by_id q p.db.rows)) [
    | inl absent ↦ kept (ground arith) (ground arith) (λ row found out. ground arith)
    | inr (row, found) ↦
        elim (Bool-cases (not row.is_active || names_contain row.cartridge_name items)) [
          | inl skip ↦ kept (ground arith) (ground arith) (λ other found' out. ground arith)
          | inr close ↦ closed row found (ground arith) (ground arith) (ground arith) (
              rw (found, close_row)
                (rw close (
                  post-IsBalanced (closed_row row now) row.quantity_on_hand (some (note none)) actor
                    (record p { deactivated = p.deactivated + 1 }) s.balanced
                    (ground (arith, found, find_by_id-id q p.db.rows row found)))))
        ]
  ]

  closed-Fits :
      (q : ℕ) (row : CartridgeStock) (rows : List CartridgeStock)
      → find_by_id q rows ≡ some row
      → Fits (closed_row row now) rows
  unfolding closed_row
  closed-Fits q row rows found = inl (row, ground (arith, find_by_id-id q rows row found), refl)

  pub Closes-IsSound :
      {q : ℕ} {p p' : Progress} → IsSound new_id p → Closes q p p' → IsSound new_id p'
  Closes-IsSound s (kept same count done) = record {
    balanced = rw same s.balanced;
    keyed = rw same s.keyed;
    unused = λ n later. rw same (s.unused n (omega arith));
  }
  Closes-IsSound {q = q} {p = p} s (closed row found out rows count balanced) = record {
    balanced = balanced;
    keyed =
        rw rows (
          store-IsKeyed (closed_row row now) p.db.rows s.keyed (closed-Fits q row p.db.rows found));
    unused = λ n later. rw rows (
        unfold closed_row in
        ground (
          arith,
          found,
          count,
          later,
          s.unused n,
          find_by_id-store (closed_row row now) (new_id n) p.db.rows,
          find_by_id-id q p.db.rows row found,
        ));
  }

  pub Closes-self : {q : ℕ} {p p' : Progress} → Closes q p p' → IsClosed items p'.db.rows q
  Closes-self (kept same count done) = rw same done
  Closes-self {q = q} {p = p} (closed row found out rows count balanced) =
      rw rows (λ other seen named.
        unfold closed_row in
        ground (
          arith,
          find_by_id-store (closed_row row now) q p.db.rows,
          find_by_id-id q p.db.rows row found,
        ))

  pub Closes-other :
      {q : ℕ} {p p' : Progress} (r : ℕ)
      → Closes q p p'
      → IsClosed items p.db.rows r
      → IsClosed items p'.db.rows r
  Closes-other r (kept same count done) c = rw same c
  Closes-other {q = q} {p = p} r (closed row found out rows count balanced) c =
      rw rows (λ other seen named.
        unfold closed_row in
        ground (arith, find_by_id-store (closed_row row now) r p.db.rows, c other))

  -- No row appears, and the rows that the items name stay as they are.
  pub Closes-absent :
      {q : ℕ} {p p' : Progress} (r : ℕ)
      → Closes q p p'
      → find_by_id r p.db.rows ≡ none
      → find_by_id r p'.db.rows ≡ none
  Closes-absent r (kept same count done) h = rw same h
  Closes-absent {q = q} {p = p} r (closed row found out rows count balanced) h = rw rows (
      unfold closed_row in
      ground (
        arith,
        found,
        find_by_id-store (closed_row row now) r p.db.rows,
        find_by_id-id q p.db.rows row found,
      ))

  pub Closes-find :
      {q : ℕ} {p p' : Progress} (n : String)
      → IsSound new_id p
      → Closes q p p'
      → names_contain n items ≡ true
      → find_by_name n p'.db.rows ≡ find_by_name n p.db.rows
  Closes-find n s (kept same count done) h = rw same refl
  Closes-find {q = q} {p = p} n s (closed row found out rows count balanced) h = rw rows (
      unfold closed_row in
      ground (
        arith,
        out,
        h,
        find_by_name-store (closed_row row now) n p.db.rows s.keyed
            (closed-Fits q row p.db.rows found),
        string_eq.beq_iff row.cartridge_name n,
      ))
