-- ===== src/Stock/Reconcile.antt =====
-- The whole of `reconcile_cartridge_inventory` (app/services/cartridge_inventory.py).
use infra_scope.Common.{
  All, ℕ, ◌<◌, ◌≡◌, ◌≢◌, refl, sym, ◌∙◌, Bool, true, false, ◌||◌, Option, none, some, List, [], ◌∷◌,
  ◌==◌, nat_eq, string_eq, arith, Bool-cases, inl, inr, String, map, ==_refl, subst,
}
use infra_scope.Stock.Tables.{CartridgeStock, Db, find_by_id, find_by_name}
use infra_scope.Stock.Balance.{IsBalanced, find_by_id-id}
use infra_scope.Stock.Keys.{IsKeyed, find_by_id_of_name, find_by_name_of_id}
use infra_scope.Stock.Inventory.{
  CartridgeInventoryItem, CartridgeInventoryDocument, Progress, names_contain, validates,
  count_items, close_row, close_rows, reconciled, reconcile_cartridge_inventory,
}
use infra_scope.Stock.Counting.{
  IsSound, IsCounted, count_items-IsSound, count_items-IsCounted, find-count_items_ne,
}
use infra_scope.Stock.Closing.{
  IsClosed, close_row-Closes, Closes-IsSound, Closes-self, Closes-other, Closes-find,
}

has_id : ℕ → List ℕ → Bool
has_id r [] = false
has_id r (q ∷ ids) = q == r || has_id r ids

absent-ids :
    (r : ℕ) (rows : List CartridgeStock)
    → has_id r (map (λ row. row.id) rows) ≡ false
    → find_by_id r rows ≡ none
unfolding has_id find_by_id
absent-ids r [] h = refl
absent-ids r (row ∷ rows) h = ground (arith, absent-ids r rows)

IsCounted-transfer :
    (rows rows' : List CartridgeStock) (items : List CartridgeInventoryItem)
    → ((n : String) → names_contain n items ≡ true → find_by_name n rows' ≡ find_by_name n rows)
    → All (IsCounted rows) items
    → All (IsCounted rows') items
unfolding names_contain
IsCounted-transfer rows rows' [] h a = tt
IsCounted-transfer rows rows' (item ∷ items) h ((row, found, counted, active), a) = (
  (row, h item.cartridge_name (rw (==_refl item.cartridge_name) refl) ∙ found, counted, active),
  IsCounted-transfer rows rows' items (λ n named. h n (ground arith)) a,
)

module _ (new_id : ℕ → ℕ) (now : ℕ) (note : Option ℕ → String) (actor : Option String) where
  module _ (items : List CartridgeInventoryItem) where
    abbrev run : List ℕ → Progress → Progress
    run = close_rows new_id now note actor items

    close_rows-IsSound :
        (ids : List ℕ) (p : Progress) → IsSound new_id p → IsSound new_id (run ids p)
    unfolding close_rows
    close_rows-IsSound [] p s = s
    close_rows-IsSound (q ∷ ids) p s =
        close_rows-IsSound ids (close_row new_id now note actor items q p) (
          Closes-IsSound new_id now note actor items s
            (close_row-Closes new_id now note actor items q p s))

    close_rows-kept :
        (ids : List ℕ) (p : Progress) (r : ℕ)
        → IsSound new_id p
        → IsClosed items p.db.rows r
        → IsClosed items (run ids p).db.rows r
    unfolding close_rows
    close_rows-kept [] p r s c = c
    close_rows-kept (q ∷ ids) p r s c =
        let step = close_row-Closes new_id now note actor items q p s in
        close_rows-kept ids (close_row new_id now note actor items q p) r
          (Closes-IsSound new_id now note actor items s step)
          (Closes-other new_id now note actor items r step c)

    close_rows-IsClosed :
        (ids : List ℕ) (p : Progress) (r : ℕ)
        → IsSound new_id p
        → has_id r ids ≡ true
        → IsClosed items (run ids p).db.rows r
    unfolding close_rows has_id
    close_rows-IsClosed [] p r s h = absurd (ground arith)
    close_rows-IsClosed (q ∷ ids) p r s h =
        let step = close_row-Closes new_id now note actor items q p s in
        let p' = close_row new_id now note actor items q p in
        let s' = Closes-IsSound new_id now note actor items s step in
        elim (Bool-cases (q == r)) [
          | inl here ↦
              let same : q ≡ r = ground arith in
              close_rows-kept ids p' r s' (
                subst (λ x. IsClosed items p'.db.rows x) same
                  (Closes-self new_id now note actor items step))
          | inr there ↦ close_rows-IsClosed ids p' r s' (ground arith)
        ]

    close_rows-find :
        (ids : List ℕ) (p : Progress) (n : String)
        → IsSound new_id p
        → names_contain n items ≡ true
        → find_by_name n (run ids p).db.rows ≡ find_by_name n p.db.rows
    unfolding close_rows
    close_rows-find [] p n s h = refl
    close_rows-find (q ∷ ids) p n s h =
        let step = close_row-Closes new_id now note actor items q p s in
        close_rows-find ids (close_row new_id now note actor items q p) n
          (Closes-IsSound new_id now note actor items s step) h
        ∙ Closes-find new_id now note actor items n s step h

  module _ (distinct : (m n : ℕ) → m < n → new_id m ≢ new_id n) where
    -- A row that the first loop adds is named by the items.
    counted-IsClosed_new :
        (items : List CartridgeInventoryItem) (p : Progress) (r : ℕ)
        → IsSound new_id p
        → find_by_id r p.db.rows ≡ none
        → IsClosed items (count_items new_id now note actor items p).db.rows r
    counted-IsClosed_new items p r s fresh row found out =
        let s' = count_items-IsSound new_id distinct now note actor items p s in
        let rows' = (count_items new_id now note actor items p).db.rows in
        let named : find_by_name row.cartridge_name rows' ≡ some row =
          find_by_name_of_id r rows' row s'.keyed found in
        let same : find_by_name row.cartridge_name rows'
            ≡ find_by_name row.cartridge_name p.db.rows =
          find-count_items_ne new_id distinct now note actor row.cartridge_name items p s out in
        let old : find_by_id row.id p.db.rows ≡ some row =
          find_by_id_of_name row.cartridge_name p.db.rows row s.keyed (sym same ∙ named) in
        absurd (ground (arith, find_by_id-id r rows' row found))

    module _ (db : Db) (document : CartridgeInventoryDocument) where
      abbrev start : Progress
      start = record { db = db; created = 0; updated = 0; deactivated = 0; movement_count = 0 }

      abbrev counted : Progress
      counted = count_items new_id now note actor document.items start

      abbrev ids : List ℕ
      ids = map (λ row. row.id) db.rows

      abbrev closed : Progress
      closed = close_rows new_id now note actor document.items ids counted

      rows-IsClosed : (r : ℕ) → IsSound new_id start → IsClosed document.items closed.db.rows r
      rows-IsClosed r s =
          let s' = count_items-IsSound new_id distinct now note actor document.items start s in
          elim (Bool-cases (has_id r ids)) [
            | inl old ↦ close_rows-IsClosed document.items ids counted r s' old
            | inr new ↦
                close_rows-kept document.items ids counted r s'
                  (counted-IsClosed_new document.items start r s (absent-ids r db.rows new))
          ]

      -- Whatever `apply` and `deactivate_missing` are, a document leaves a balanced catalogue with
      -- unique keys balanced, with unique keys, if new rows get unused identifiers.
      pub reconcile-IsBalanced :
          (apply deactivate_missing : Bool)
          → IsBalanced db
          → IsKeyed db.rows
          → ((n : ℕ) → find_by_id (new_id n) db.rows ≡ none)
          → let db' =
              (reconcile_cartridge_inventory new_id now note actor db document apply
                deactivate_missing).0 in
            IsBalanced db' × IsKeyed db'.rows
      unfolding reconcile_cartridge_inventory reconciled
      reconcile-IsBalanced false _ b k unused = (b, k)
      reconcile-IsBalanced true false b k unused =
          let s₁ =
            count_items-IsSound new_id distinct now note actor document.items start
              (record { balanced = b; keyed = k; unused = λ n _. unused n }) in
          (s₁.balanced, s₁.keyed)
      reconcile-IsBalanced true true b k unused =
          let s₁ =
            count_items-IsSound new_id distinct now note actor document.items start
              (record { balanced = b; keyed = k; unused = λ n _. unused n }) in
          let s₂ = close_rows-IsSound document.items ids counted s₁ in (s₂.balanced, s₂.keyed)

      -- A valid document that is applied, with missing rows deactivated, to a balanced catalogue
      -- with unique keys, new rows getting unused identifiers, leaves the ledger balanced and the
      -- keys unique; every item's row is active with the quantity counted; and every row whose
      -- name the document lacks is inactive.
      pub reconcile_lem :
          IsBalanced db
          → IsKeyed db.rows
          → ((n : ℕ) → find_by_id (new_id n) db.rows ≡ none)
          → validates document ≡ true
          → let db' =
              (reconcile_cartridge_inventory new_id now note actor db document true true).0 in
            IsBalanced db'
            × IsKeyed db'.rows
            × All (IsCounted db'.rows) document.items
            × ((row : CartridgeStock)
                → find_by_name row.cartridge_name db'.rows ≡ some row
                → names_contain row.cartridge_name document.items ≡ false
                → row.is_active ≡ false)
      unfolding reconcile_cartridge_inventory reconciled validates
      reconcile_lem b k unused valid =
          let s : IsSound new_id start = record {
            balanced = b;
            keyed = k;
            unused = λ n _. unused n;
          } in
          let s₁ = count_items-IsSound new_id distinct now note actor document.items start s in
          let s₂ = close_rows-IsSound document.items ids counted s₁ in
          (
            s₂.balanced,
            s₂.keyed,
            IsCounted-transfer counted.db.rows closed.db.rows document.items
                (λ n named. close_rows-find document.items ids counted n s₁ named)
                (count_items-IsCounted new_id distinct now note actor document.items start s
                  (ground arith)),
            λ row found out.
                rows-IsClosed row.id s row
                  (find_by_id_of_name row.cartridge_name closed.db.rows row s₂.keyed found) out,
          )

  -- A preview stores nothing, and reports the numbers that applying the document would report.
  pub reconcile_preview :
      (db : Db) (document : CartridgeInventoryDocument) (deactivate_missing : Bool)
      → let preview =
          reconcile_cartridge_inventory new_id now note actor db document false
            deactivate_missing in
        let applied =
          reconcile_cartridge_inventory new_id now note actor db document true deactivate_missing in
        (preview.0 ≡ db) × (record preview.1 { applied = true } ≡ applied.1)
  unfolding reconcile_cartridge_inventory
  reconcile_preview db document deactivate_missing = (refl, refl)
