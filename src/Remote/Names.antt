-- ===== src/Remote/Names.antt =====
-- The names of the devices of app/domains/remote_access/: one row for each, however it is spelled.
use infra_scope.Common.{
  ℕ, suc, ◌≡◌, ◌≢◌, refl, sym, ap, ◌∙◌, subst, Bool, true, Option, none, some, List, [], ◌∷◌, ◌++◌,
  map, String, if◌then◌else◌, ◌==◌, nat_eq, string_eq, All, All-append, first, Bool-cases, inl, inr,
  ==_refl,
}
use mathlib.Core.Bool.{true≢false}
use mathlib.Core.Option.{none-ne-some}
use infra_scope.Remote.Device.{Str, RemoteAccessDevice, SourceKind, new_device, hostname_to_rid}
use infra_scope.Remote.Rows.{Table, update, has_name}
use infra_scope.Remote.Inventory.{
  Links, Inventory, Endpoint, seed_found, seed_row, seed_rows, mapped_links, link_inventory,
  refreshed,
}
use infra_scope.Remote.Kept.{name, core, core→name, if_keeps, core-link_inventory}

-- Lowered, as the index of the table has them.
abbrev pub names : Str → Table → List String
names py rows = map (λ dev. py.lower dev.hostname) rows

abbrev pub Distinct : List String → Type 0
Distinct [] = Unit
Distinct (x ∷ xs) = All (λ y. x ≢ y) xs × Distinct xs

Distinct-append :
    (xs : List String) (y : String) → Distinct xs → All (λ x. x ≢ y) xs → Distinct (xs ++ (y ∷ []))
Distinct-append [] y d a = (tt, tt)
Distinct-append (x ∷ xs) y (b, d) (ne, a) =
    (All-append (λ z. x ≢ z) xs (y ∷ []) b (ne, tt), Distinct-append xs y d a)

pub names-append :
    (py : Str) (rows : Table) (dev : RemoteAccessDevice)
    → names py (rows ++ (dev ∷ [])) ≡ names py rows ++ (py.lower dev.hostname ∷ [])
names-append py [] dev = refl
names-append py (d ∷ rows) dev = ap (λ l. py.lower d.hostname ∷ l) (names-append py rows dev)

pub names-map :
    (py : Str) (f : RemoteAccessDevice → RemoteAccessDevice) (rows : Table)
    → ((dev : RemoteAccessDevice) → name (f dev) ≡ name dev)
    → names py (map f rows) ≡ names py rows
names-map py f [] h = refl
names-map py f (dev ∷ rows) h =
    ap (λ n. py.lower n.1 ∷ names py (map f rows)) (h dev)
    ∙ ap (λ l. py.lower dev.hostname ∷ l) (names-map py f rows h)

pub names-update :
    (py : Str) (id : ℕ) (f : RemoteAccessDevice → RemoteAccessDevice) (rows : Table)
    → ((dev : RemoteAccessDevice) → name (f dev) ≡ name dev)
    → names py (update id f rows) ≡ names py rows
names-update py id f rows h =
    names-map py (λ dev. if dev.id == id then f dev else dev) rows
      (λ dev. if_keeps name (dev.id == id) (h dev) refl)

first-absurd :
    (test : RemoteAccessDevice → Bool) (dev : RemoteAccessDevice) (rows : Table)
    → test dev ≡ true
    → ¬ (first test (dev ∷ rows) ≡ none)
first-absurd test dev rows h e =
    none-ne-some dev (sym e ∙ ap (λ b. if b then some dev else first test rows) h)

-- What was not found is not there.
first-has_name-none :
    (py : Str) (key : String) (rows : Table)
    → first (has_name py key) rows ≡ none
    → All (λ x. x ≢ key) (names py rows)
first-has_name-none py key [] e = tt
first-has_name-none py key (dev ∷ rows) e = elim (Bool-cases (has_name py key dev)) [
  | inl same ↦ absurd (first-absurd (has_name py key) dev rows same e)
  | inr other ↦ (
    λ eq. true≢false (sym (ap (λ n. n == key) eq ∙ ==_refl key) ∙ other),
    first-has_name-none py key rows
        (ap (λ b. if b then some dev else first (has_name py key) rows) (sym other) ∙ e),
  )
]

pub Distinct-add :
    (py : Str) (key : String) (rows : Table) (dev : RemoteAccessDevice)
    → Distinct (names py rows)
    → first (has_name py key) rows ≡ none
    → py.lower dev.hostname ≡ key
    → Distinct (names py (rows ++ (dev ∷ [])))
Distinct-add py key rows dev d free e = subst Distinct (sym (names-append py rows dev)) (
    Distinct-append (names py rows) (py.lower dev.hostname) d (
      subst (λ k. All (λ x. x ≢ k) (names py rows)) (sym e) (first-has_name-none py key rows free)))

pub core-seeded :
    (links : Links) (kind : SourceKind) (location : Option String) (password : String)
    (dev : RemoteAccessDevice)
    → core (link_inventory links (refreshed kind location password dev)) ≡ core dev
core-seeded links kind location password dev =
    core-link_inventory links (refreshed kind location password dev)

seed_found-Distinct :
    (py : Str) (inventory : Inventory) (new_id : ℕ → ℕ) (password : ℕ → String) (n : ℕ)
    (e : Endpoint) (rows : Table) (found : Option RemoteAccessDevice)
    → Distinct (names py rows)
    → first (has_name py (py.lower e.0)) rows ≡ found
    → Distinct (names py (seed_found py inventory new_id password n e rows found).0)
unfolding seed_found
seed_found-Distinct py inventory new_id password n (hostname, kind, location) rows none d free =
    let links = mapped_links py inventory (py.lower hostname) in
    let new =
      new_device (new_id n) hostname (hostname_to_rid py hostname) kind location (password n) in
    Distinct-add py (py.lower hostname) rows (link_inventory links new) d free
      (ap (λ c. py.lower c.1) (core-link_inventory links new))
seed_found-Distinct py inventory new_id password n (hostname, kind, location) rows (some dev) d
      found =
    subst Distinct
      (sym (
        names-update py dev.id
          (λ d.
            link_inventory (mapped_links py inventory (py.lower d.hostname))
              (refreshed kind location (password n) d))
          rows
          (λ d.
            core→name
              (link_inventory (mapped_links py inventory (py.lower d.hostname))
                (refreshed kind location (password n) d))
              d
              (core-seeded (mapped_links py inventory (py.lower d.hostname)) kind location
                (password n) d))))
      d

seed_row-Distinct :
    (py : Str) (inventory : Inventory) (new_id : ℕ → ℕ) (password : ℕ → String) (n : ℕ)
    (e : Endpoint) (rows : Table)
    → Distinct (names py rows)
    → Distinct (names py (seed_row py inventory new_id password n e rows).0)
unfolding seed_row
seed_row-Distinct py inventory new_id password n e rows d =
    seed_found-Distinct py inventory new_id password n e rows
      (first (has_name py (py.lower e.0)) rows) d refl

pub seed_rows-Distinct :
    (py : Str) (inventory : Inventory) (new_id : ℕ → ℕ) (password : ℕ → String) (n : ℕ)
    (es : List Endpoint) (rows : Table)
    → Distinct (names py rows)
    → Distinct (names py (seed_rows py inventory new_id password n es rows).0)
unfolding seed_rows
seed_rows-Distinct py inventory new_id password n [] rows d = d
seed_rows-Distinct py inventory new_id password n (e ∷ es) rows d =
    seed_rows-Distinct py inventory new_id password (suc n) es
      (seed_row py inventory new_id password n e rows).0
      (seed_row-Distinct py inventory new_id password n e rows d)
