-- ===== src/Stock/Syncing.antt =====
-- What `sync_cartridge_stock_from_printers` of app/services/cartridge_stock.py keeps.
use infra_scope.Common.{
  ℕ, ◌≤◌, ◌<◌, ◌≡◌, ◌≢◌, refl, sym, ap, subst, ◌∙◌, true, false, Option, none, some, List, [], ◌∷◌,
  String, if◌then◌else◌, ◌==◌, nat_eq, string_eq, arith, Bool-cases, ==_sound, inl, inr,
}
use mathlib.Core.Bool.{true≢false}
use mathlib.Core.Option.{some-injective}
use infra_scope.Stock.Tables.{
  CartridgeStock, CartridgeStockMovement, Db, find_by_id, find_by_name, store,
}
use infra_scope.Stock.Inventory.{blank_row}
use infra_scope.Stock.Balance.{IsBalanced, find_by_id-store}
use infra_scope.Stock.Keys.{IsKeyed, find_by_id_of_name}
use infra_scope.Stock.Printers.{
  Printer, Discovered, synced_row, sync_found, sync_items, sort_items, discover_all,
  sync_cartridge_stock_from_printers,
}
use infra_scope.Stock.Supplies.{IsSynced, sync_found-IsSynced, sync_items-IsSynced}

-- The position is there, with its name, quantity, minimum and flag; an archived one is as it was.
abbrev pub IsKept : CartridgeStock → Option CartridgeStock → Type 0
IsKept row found =
    (row' : CartridgeStock) × (found ≡ some row')
    × (row'.cartridge_name ≡ row.cartridge_name)
    × (row'.quantity_on_hand ≡ row.quantity_on_hand)
    × (row'.minimum_stock ≡ row.minimum_stock)
    × (row'.is_active ≡ row.is_active)
    × (row.is_active ≡ false → row' ≡ row)

kept : {found : Option CartridgeStock} (row : CartridgeStock) → found ≡ some row → IsKept row found
kept row e = (row, e, refl, refl, refl, refl, λ a. refl)

kept_trans :
    (row row' : CartridgeStock) (found : Option CartridgeStock)
    → (row'.cartridge_name ≡ row.cartridge_name)
      × (row'.quantity_on_hand ≡ row.quantity_on_hand)
      × (row'.minimum_stock ≡ row.minimum_stock)
      × (row'.is_active ≡ row.is_active)
      × (row.is_active ≡ false → row' ≡ row)
    → IsKept row' found
    → IsKept row found
kept_trans row row' found (n, q, m, a, h) (row'', e, n', q', m', a', h') =
    (row'', e, n' ∙ n, q' ∙ q, m' ∙ m, a' ∙ a, λ i. h' (a ∙ i) ∙ h i)

module _ (cut : String → String) (now : ℕ) (new_id : ℕ → ℕ)
    (distinct : (m n : ℕ) → m < n → new_id m ≢ new_id n) where
  stored-IsKept :
      (d : Discovered) (rows : List CartridgeStock) (old row : CartridgeStock) (q : ℕ)
      → find_by_id old.id rows ≡ some old
      → find_by_id q rows ≡ some row
      → old.is_active ≡ true
      → IsKept row (find_by_id q (store (synced_row cut now d old) rows))
  unfolding synced_row
  stored-IsKept d rows old row q place here active =
      let found = find_by_id-store (synced_row cut now d old) q rows in
      elim (Bool-cases (old.id == q)) [
        | inr other ↦ kept row (
            found
            ∙ ap (λ b. if b then some (synced_row cut now d old) else find_by_id q rows) other
            ∙ here)
        | inl same ↦
            let one : old ≡ row =
              some-injective old row
                (sym place ∙ ap (λ i. find_by_id i rows) (==_sound old.id q same) ∙ here) in
            (
              synced_row cut now d old,
              found
                  ∙ ap (λ b. if b then some (synced_row cut now d old) else find_by_id q rows) same,
              ap (λ r. r.cartridge_name) one,
              ap (λ r. r.quantity_on_hand) one,
              ap (λ r. r.minimum_stock) one,
              sym active ∙ ap (λ r. r.is_active) one,
              λ archived. absurd (true≢false (sym active ∙ ap (λ r. r.is_active) one ∙ archived)),
            )
      ]

  sync_found-IsKept :
      (rows : List CartridgeStock) (created : ℕ) (d : Discovered) (found : Option CartridgeStock)
      (q : ℕ) (row : CartridgeStock)
      → find_by_name d.cartridge_name rows ≡ found
      → IsKeyed rows
      → ((n : ℕ) → created ≤ n → find_by_id (new_id n) rows ≡ none)
      → find_by_id q rows ≡ some row
      → IsKept row (find_by_id q (sync_found cut now new_id d rows created found).0)
  unfolding sync_found synced_row blank_row
  sync_found-IsKept rows created d none q row free k unused here = (
    row,
    ground (
      arith,
      here,
      unused created,
      nat_eq.beq_iff (new_id created) q,
      find_by_id-store (synced_row cut now d (blank_row (new_id created) now d.cartridge_name)) q
          rows,
    ),
    refl,
    refl,
    refl,
    refl,
    λ e. refl,
  )
  sync_found-IsKept rows created d (some old) q row found k unused here =
      let place = find_by_id_of_name d.cartridge_name rows old k found in
      elim (Bool-cases old.is_active) [
        | inr archived ↦
            subst
              (λ b. IsKept row (
                find_by_id q
                  (if◌then◌else◌ {A = List CartridgeStock × ℕ} b
                    (store (synced_row cut now d old) rows, created) (rows, created)).0))
              (sym archived) (kept row here)
        | inl active ↦
            subst
              (λ b. IsKept row (
                find_by_id q
                  (if◌then◌else◌ {A = List CartridgeStock × ℕ} b
                    (store (synced_row cut now d old) rows, created) (rows, created)).0))
              (sym active) (stored-IsKept d rows old row q place here active)
      ]

  sync_items-IsKept :
      (movements : List CartridgeStockMovement) (ds : List Discovered) (rows : List CartridgeStock)
      (created q : ℕ) (row : CartridgeStock)
      → IsSynced cut now new_id distinct (record { rows = rows; movements = movements }) created
      → find_by_id q rows ≡ some row
      → IsKept row (find_by_id q (sync_items cut now new_id ds rows created).0)
  unfolding sync_items
  sync_items-IsKept movements [] rows created q row s here = kept row here
  sync_items-IsKept movements (d ∷ ds) rows created q row s here =
      let found = find_by_name d.cartridge_name rows in
      let synced = sync_found cut now new_id d rows created found in
      let (row', e, n, on_hand, m, a, h) =
        sync_found-IsKept rows created d found q row refl s.keyed s.unused here in
      kept_trans row row' (find_by_id q (sync_items cut now new_id ds synced.0 synced.1).0)
        (n, on_hand, m, a, h)
        (sync_items-IsKept movements ds synced.0 synced.1 q row'
          (sync_found-IsSynced cut now new_id distinct
            (record { rows = rows; movements = movements }) created d found refl s)
          e)

  -- A sync with the printers, whose new rows get unused identifiers, leaves a balanced catalogue with
  -- unique keys balanced, with unique keys; every position keeps its name, its quantity, its minimum
  -- and its flag, and an archived one is left as it was.
  pub sync_cartridge_stock_from_printers_lem :
      (clean : String → String) (printers : List Printer) (db : Db)
      → IsBalanced db
      → IsKeyed db.rows
      → ((n : ℕ) → find_by_id (new_id n) db.rows ≡ none)
      → let db' = sync_cartridge_stock_from_printers cut now new_id clean printers db in
        IsBalanced db'
        × IsKeyed db'.rows
        × ((q : ℕ) (row : CartridgeStock)
            → find_by_id q db.rows ≡ some row
            → IsKept row (find_by_id q db'.rows))
  unfolding sync_cartridge_stock_from_printers
  sync_cartridge_stock_from_printers_lem clean printers db b k fresh =
      let items = sort_items (discover_all clean printers []) in
      let start : IsSynced cut now new_id distinct db 0 = record {
        balanced = b;
        keyed = k;
        unused = λ n h. fresh n;
      } in
      let end = sync_items-IsSynced cut now new_id distinct db.movements items db.rows 0 start in
      (
        end.balanced,
        end.keyed,
        λ q row here. sync_items-IsKept db.movements items db.rows 0 q row start here,
      )
