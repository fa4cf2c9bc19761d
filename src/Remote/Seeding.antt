-- ===== src/Remote/Seeding.antt =====
-- The inventory of app/domains/remote_access/service/inventory.py and the rows that mirror it.
use infra_scope.Common.{
  ℕ, suc, ◌≡◌, refl, sym, ap, ◌∙◌, Bool, true, false, ◌||◌, Option, none, some, List, [], ◌∷◌, ◌++◌,
  String, if◌then◌else◌, ◌==◌, string_eq, arith, All, All-mono, first, length, length-append,
  length-map, ◌+◌, nat_eq, ==_refl, Bool-cases, inl, inr,
}
use infra_scope.Remote.Device.{Str, RemoteAccessDevice, new_device, hostname_to_rid}
use infra_scope.Remote.Rows.{Table, has_name}
use infra_scope.Remote.Inventory.{
  Inventory, Endpoint, seed_found, seed_row, seed_rows, seed_from_inventory, inventory_rows,
  mapped_links, link_inventory, refreshed,
}
use infra_scope.Remote.Kept.{core→name, core-link_inventory}
use infra_scope.Remote.Names.{names, names-append, names-update, core-seeded}

-- A row has this lowered name.
abbrev pub has_key : String → List String → Bool
has_key key [] = false
has_key key (n ∷ ns) = (n == key) || has_key key ns

-- The endpoint has a row.
abbrev pub IsMirrored : Str → Table → Endpoint → Type 0
IsMirrored py rows e = has_key (py.lower e.0) (names py rows) ≡ true

has_key-append_left :
    (key : String) (xs ys : List String) → has_key key xs ≡ true → has_key key (xs ++ ys) ≡ true
has_key-append_left key [] ys h = ground arith
has_key-append_left key (x ∷ xs) ys h = ground (arith, has_key-append_left key xs ys)

has_key-append_end : (key : String) (xs : List String) → has_key key (xs ++ (key ∷ [])) ≡ true
has_key-append_end key [] = ground (arith, ==_refl key)
has_key-append_end key (x ∷ xs) = ground (arith, has_key-append_end key xs)

-- The row of the name, as the loop finds it.
has_key-first :
    (py : Str) (key : String) (rows : Table)
    → has_key key (names py rows) ≡ true
    → (dev : RemoteAccessDevice) × (first (has_name py key) rows ≡ some dev)
has_key-first py key [] h = ground arith
has_key-first py key (dev ∷ rows) h = elim (Bool-cases (has_name py key dev)) [
  | inl here ↦ (dev, ap (λ b. if b then some dev else first (has_name py key) rows) here)
  | inr other ↦
      let (d, e) =
        has_key-first py key rows (sym (ap (λ b. b || has_key key (names py rows)) other) ∙ h) in
      (d, ap (λ b. if b then some dev else first (has_name py key) rows) other ∙ e)
]

first-has_key :
    (py : Str) (key : String) (rows : Table) (dev : RemoteAccessDevice)
    → first (has_name py key) rows ≡ some dev
    → has_key key (names py rows) ≡ true
first-has_key py key [] dev e = ground arith
first-has_key py key (d ∷ rows) dev e = elim (Bool-cases (has_name py key d)) [
  | inl here ↦ ap (λ b. b || has_key key (names py rows)) here
  | inr other ↦
      ap (λ b. b || has_key key (names py rows)) other
      ∙ first-has_key py key rows dev
          (ap (λ b. if b then some d else first (has_name py key) rows) (sym other) ∙ e)
]

module _ (py : Str) (inventory : Inventory) (new_id : ℕ → ℕ) (password : ℕ → String) where
  -- What one endpoint does: the names stay, or the endpoint's is added and counted.
  names-seed_found :
      (n : ℕ) (e : Endpoint) (rows : Table) (found : Option RemoteAccessDevice)
      → names py (seed_found py inventory new_id password n e rows found).0
        ≡ elim found [ none ↦ names py rows ++ (py.lower e.0 ∷ []) | some dev ↦ names py rows ]
  unfolding seed_found
  names-seed_found n (hostname, kind, location) rows none =
      let new =
        new_device (new_id n) hostname (hostname_to_rid py hostname) kind location (password n) in
      let links = mapped_links py inventory (py.lower hostname) in
      names-append py rows (link_inventory links new)
      ∙ ap (λ c. names py rows ++ (py.lower c.1 ∷ [])) (core-link_inventory links new)
  names-seed_found n (hostname, kind, location) rows (some dev) =
      names-update py dev.id
        (λ d.
          link_inventory (mapped_links py inventory (py.lower d.hostname))
            (refreshed kind location (password n) d))
        rows
        (λ d.
          core→name
            (link_inventory (mapped_links py inventory (py.lower d.hostname))
              (refreshed kind location (password n) d))
            d
            (core-seeded (mapped_links py inventory (py.lower d.hostname)) kind location
              (password n) d))

  seed_found-IsMirrored :
      (n : ℕ) (e : Endpoint) (rows : Table) (found : Option RemoteAccessDevice)
      → first (has_name py (py.lower e.0)) rows ≡ found
      → IsMirrored py (seed_found py inventory new_id password n e rows found).0 e
  seed_found-IsMirrored n e rows none h =
      ap (has_key (py.lower e.0)) (names-seed_found n e rows none)
      ∙ has_key-append_end (py.lower e.0) (names py rows)
  seed_found-IsMirrored n e rows (some dev) h =
      ap (has_key (py.lower e.0)) (names-seed_found n e rows (some dev))
      ∙ first-has_key py (py.lower e.0) rows dev h

  has_key-seed_found :
      (key : String) (n : ℕ) (e : Endpoint) (rows : Table) (found : Option RemoteAccessDevice)
      → has_key key (names py rows) ≡ true
      → has_key key (names py (seed_found py inventory new_id password n e rows found).0) ≡ true
  has_key-seed_found key n e rows none h =
      ap (has_key key) (names-seed_found n e rows none)
      ∙ has_key-append_left key (names py rows) (py.lower e.0 ∷ []) h
  has_key-seed_found key n e rows (some dev) h =
      ap (has_key key) (names-seed_found n e rows (some dev)) ∙ h

  has_key-seed_rows :
      (key : String) (n : ℕ) (es : List Endpoint) (rows : Table)
      → has_key key (names py rows) ≡ true
      → has_key key (names py (seed_rows py inventory new_id password n es rows).0) ≡ true
  unfolding seed_rows seed_row
  has_key-seed_rows key n [] rows h = h
  has_key-seed_rows key n (e ∷ es) rows h =
      has_key-seed_rows key (suc n) es (seed_row py inventory new_id password n e rows).0
        (has_key-seed_found key n e rows (first (has_name py (py.lower e.0)) rows) h)

  -- All endpoints have a row afterwards.
  seed_rows-IsMirrored :
      (n : ℕ) (es : List Endpoint) (rows : Table)
      → All (IsMirrored py (seed_rows py inventory new_id password n es rows).0) es
  unfolding seed_rows seed_row
  seed_rows-IsMirrored n [] rows = tt
  seed_rows-IsMirrored n (e ∷ es) rows =
      let found = first (has_name py (py.lower e.0)) rows in
      (
        has_key-seed_rows (py.lower e.0) (suc n) es
            (seed_row py inventory new_id password n e rows).0
            (seed_found-IsMirrored n e rows found refl),
        seed_rows-IsMirrored (suc n) es (seed_row py inventory new_id password n e rows).0,
      )

  -- The number returned is that of the new rows.
  length-seed_found :
      (n : ℕ) (e : Endpoint) (rows : Table) (found : Option RemoteAccessDevice)
      → let result = seed_found py inventory new_id password n e rows found in
        length result.0 ≡ length rows + result.1
  unfolding seed_found
  length-seed_found n (hostname, kind, location) rows none = length-append rows (
      link_inventory (mapped_links py inventory (py.lower hostname))
        (new_device (new_id n) hostname (hostname_to_rid py hostname) kind location (password n))
      ∷ [])
  length-seed_found n (hostname, kind, location) rows (some dev) = omega (
    arith,
    length-map rows (λ d.
        if d.id == dev.id
        then (link_inventory (mapped_links py inventory (py.lower d.hostname))
            (refreshed kind location (password n) d))
        else d),
  )

  length-seed_rows :
      (n : ℕ) (es : List Endpoint) (rows : Table)
      → let result = seed_rows py inventory new_id password n es rows in
        length result.0 ≡ length rows + result.1
  unfolding seed_rows seed_row
  length-seed_rows n [] rows = omega arith
  length-seed_rows n (e ∷ es) rows = omega (
    arith,
    length-seed_found n e rows (first (has_name py (py.lower e.0)) rows),
    length-seed_rows (suc n) es (seed_row py inventory new_id password n e rows).0,
  )

  seed_found-names :
      (n : ℕ) (e : Endpoint) (rows : Table) (found : Option RemoteAccessDevice)
      → ((dev : RemoteAccessDevice) × (found ≡ some dev))
      → names py (seed_found py inventory new_id password n e rows found).0 ≡ names py rows
  seed_found-names n e rows none (dev, h) = ground arith
  seed_found-names n e rows (some d) (dev, h) = names-seed_found n e rows (some d)

  -- Where all endpoints have a row, the names of the table stay, and no row is made.
  names-seed_rows :
      (n : ℕ) (es : List Endpoint) (rows : Table)
      → All (IsMirrored py rows) es
      → names py (seed_rows py inventory new_id password n es rows).0 ≡ names py rows
  unfolding seed_rows seed_row
  names-seed_rows n [] rows a = refl
  names-seed_rows n (e ∷ es) rows (h, a) =
      let found = first (has_name py (py.lower e.0)) rows in
      let after = (seed_row py inventory new_id password n e rows).0 in
      names-seed_rows (suc n) es after (
        All-mono (IsMirrored py rows) (IsMirrored py after)
          (λ e'. has_key-seed_found (py.lower e'.0) n e rows found) es a)
      ∙ seed_found-names n e rows found (has_key-first py (py.lower e.0) rows h)

-- As many names as rows.
length-names : (py : Str) (rows : Table) → length (names py rows) ≡ length rows
length-names py rows = length-map rows (λ dev. py.lower dev.hostname)

-- A seeding returns the number of rows by which the table grows, and after it each endpoint of the
-- inventory has a row of its name, letter case aside. A second seeding of the same inventory,
-- whatever ids and passwords it draws, returns 0 and leaves the names of the table, and with them
-- its number of rows, as they are.
pub seed_from_inventory_idem :
    (py : Str) (inventory : Inventory) (new_id new_id' : ℕ → ℕ) (password password' : ℕ → String)
    (rows : Table)
    → let (seeded, created) = seed_from_inventory py inventory new_id password rows in
      let (again, more) = seed_from_inventory py inventory new_id' password' seeded in
      (length seeded ≡ length rows + created)
      × All (IsMirrored py seeded) (inventory_rows py inventory)
      × (more ≡ 0)
      × (names py again ≡ names py seeded)
      × (length again ≡ length seeded)
unfolding seed_from_inventory
seed_from_inventory_idem py inventory new_id new_id' password password' rows =
    let es = inventory_rows py inventory in
    let seeded = (seed_rows py inventory new_id password 0 es rows).0 in
    let again = (seed_rows py inventory new_id' password' 0 es seeded).0 in
    let mirrored = seed_rows-IsMirrored py inventory new_id password 0 es rows in
    let same = names-seed_rows py inventory new_id' password' 0 es seeded mirrored in
    let lengths : length again ≡ length seeded =
      sym (length-names py again) ∙ ap length same ∙ length-names py seeded in
    (
      length-seed_rows py inventory new_id password 0 es rows,
      mirrored,
      omega (arith, lengths, length-seed_rows py inventory new_id' password' 0 es seeded),
      same,
      lengths,
    )
