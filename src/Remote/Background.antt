-- ===== src/Remote/Background.antt =====
-- What the runs that no operator asks for leave of the rows of app/domains/remote_access/.
use mathlib.Core.List.{append-nil, append_assoc}
use mathlib.Core.Option.{none-ne-some, some-injective}
use infra_scope.Common.{
  ℕ, suc, ◌≡◌, refl, sym, ap, ◌∙◌, Bool, not, ◌&&◌, Option, none, some, List, [], ◌∷◌, ◌++◌, map,
  String, if◌then◌else◌, ◌==◌, nat_eq, keep, first,
}
use infra_scope.Remote.Device.{Str, RemoteAccessDevice, new_device, hostname_to_rid}
use infra_scope.Remote.Rows.{Table, update, has_name, find_device}
use infra_scope.Remote.Inventory.{
  Inventory, Endpoint, seed_found, seed_row, seed_rows, seed_from_inventory, inventory_rows,
  mapped_links, link_inventory, refreshed,
}
use infra_scope.Remote.Mirror.{refresh_status_from_inventory, refresh_row}
use infra_scope.Remote.Deployment.{Report, report_to, apply_deploy_report}
use infra_scope.Remote.Deployment
use infra_scope.Remote.Changes
use infra_scope.Remote.Sync.{sync_from_console, settle, observe}
use infra_scope.Remote.AddressBook.{
  Book, Listed, counts, pushed_row, is_target, rechecked, is_stale_row, push_shared_address_book,
  sync_stale_address_book,
}
use infra_scope.Remote.Kept.{core, if_keeps, core-refresh_row, core-settle}
use infra_scope.Remote.Requests.{core-pushed_if, core-rechecked, core-reported}
use infra_scope.Remote.Names.{core-seeded}
use infra_scope.Remote.Changes.{Tick, seeded, synced, rebooked, reported, Ticks, done, more}

-- The ids, the names and the `managed` flags, in order.
abbrev pub cores : Table → List (ℕ × String × Bool)
cores rows = map core rows

-- All rows are there with their id, name and flag, and the others come after them.
abbrev pub IsGrown : Table → Table → Type 0
IsGrown rows rows' = (added : List (ℕ × String × Bool)) × (cores rows' ≡ cores rows ++ added)

IsGrown-same : (rows rows' : Table) → cores rows' ≡ cores rows → IsGrown rows rows'
IsGrown-same rows rows' e = ([], e ∙ sym (append-nil (cores rows)))

growth_trans : (a b c : Table) → IsGrown a b → IsGrown b c → IsGrown a c
growth_trans a b c (x, e) (y, e') = (x ++ y, e' ∙ ap (λ l. l ++ y) e ∙ append_assoc (cores a) x y)

cores-map :
    (f : RemoteAccessDevice → RemoteAccessDevice) (rows : Table)
    → ((dev : RemoteAccessDevice) → core (f dev) ≡ core dev)
    → cores (map f rows) ≡ cores rows
cores-map f [] h = refl
cores-map f (dev ∷ rows) h =
    ap (λ c. c ∷ cores (map f rows)) (h dev) ∙ ap (λ l. core dev ∷ l) (cores-map f rows h)

cores-update :
    (id : ℕ) (f : RemoteAccessDevice → RemoteAccessDevice) (rows : Table)
    → ((dev : RemoteAccessDevice) → core (f dev) ≡ core dev)
    → cores (update id f rows) ≡ cores rows
cores-update id f rows h =
    cores-map (λ dev. if dev.id == id then f dev else dev) rows
      (λ dev. if_keeps core (dev.id == id) (h dev) refl)

cores-append : (rows added : Table) → cores (rows ++ added) ≡ cores rows ++ cores added
cores-append [] added = refl
cores-append (dev ∷ rows) added = ap (λ l. core dev ∷ l) (cores-append rows added)

seed_found-IsGrown :
    (py : Str) (inventory : Inventory) (new_id : ℕ → ℕ) (password : ℕ → String) (n : ℕ)
    (e : Endpoint) (rows : Table) (found : Option RemoteAccessDevice)
    → IsGrown rows (seed_found py inventory new_id password n e rows found).0
unfolding seed_found
seed_found-IsGrown py inventory new_id password n (hostname, kind, location) rows none =
    let new =
      link_inventory (mapped_links py inventory (py.lower hostname))
        (new_device (new_id n) hostname (hostname_to_rid py hostname) kind location (password n)) in
    (cores (new ∷ []), cores-append rows (new ∷ []))
seed_found-IsGrown py inventory new_id password n (hostname, kind, location) rows (some dev) =
    IsGrown-same rows
      (seed_found py inventory new_id password n (hostname, kind, location) rows (some dev)).0
      (cores-update dev.id
        (λ d.
          link_inventory (mapped_links py inventory (py.lower d.hostname))
            (refreshed kind location (password n) d))
        rows
        (λ d.
          core-seeded (mapped_links py inventory (py.lower d.hostname)) kind location (password n)
            d))

seed_rows-IsGrown :
    (py : Str) (inventory : Inventory) (new_id : ℕ → ℕ) (password : ℕ → String) (n : ℕ)
    (es : List Endpoint) (rows : Table)
    → IsGrown rows (seed_rows py inventory new_id password n es rows).0
unfolding seed_rows seed_row
seed_rows-IsGrown py inventory new_id password n [] rows = IsGrown-same rows rows refl
seed_rows-IsGrown py inventory new_id password n (e ∷ es) rows =
    let seeded = (seed_row py inventory new_id password n e rows).0 in
    growth_trans rows seeded (seed_rows py inventory new_id password (suc n) es seeded).0
      (seed_found-IsGrown py inventory new_id password n e rows
        (first (has_name py (py.lower e.0)) rows))
      (seed_rows-IsGrown py inventory new_id password (suc n) es seeded)

cores-rebooked :
    (py : Str) (now : ℕ) (default : String) (live : Listed) (book : Book) (rows : Table)
    → cores (sync_stale_address_book py now default live book rows).0 ≡ cores rows
unfolding sync_stale_address_book push_shared_address_book
cores-rebooked py now default live book rows =
    let checked = map (rechecked live) rows in
    let count = counts py book (keep (λ dev. is_stale_row dev && is_target dev) checked) in
    cores-map
      (λ dev.
        if is_stale_row dev && is_target dev
        then pushed_row py now book (not (count.created == 0)) dev
        else dev)
      checked
      (λ dev.
        core-pushed_if py now book (is_stale_row dev && is_target dev) (not (count.created == 0))
          dev)
    ∙ cores-map (rechecked live) rows (core-rechecked live)

cores-report_to :
    (py : Str) (cut : String → String) (now : ℕ) (report : Report) (rows rows' : Table)
    (found : Option RemoteAccessDevice)
    → report_to py cut now report rows found ≡ some rows'
    → cores rows' ≡ cores rows
cores-report_to py cut now report rows rows' none e = absurd (none-ne-some rows' e)
cores-report_to py cut now report rows rows' (some dev) e =
    ap cores
      (sym (some-injective (update dev.id (Deployment.reported py cut now report) rows) rows' e))
    ∙ cores-update dev.id (Deployment.reported py cut now report) rows
        (core-reported py cut now report)

Tick-IsGrown : (py : Str) (rows rows' : Table) → Tick py rows rows' → IsGrown rows rows'
unfolding seed_from_inventory refresh_status_from_inventory sync_from_console apply_deploy_report
Tick-IsGrown py rows rows' (seeded inventory new_id password) =
    seed_rows-IsGrown py inventory new_id password 0 (inventory_rows py inventory) rows
Tick-IsGrown py rows rows' (Changes.refreshed now inventory) =
    IsGrown-same rows rows'
      (cores-map (refresh_row now inventory) rows (core-refresh_row now inventory))
Tick-IsGrown py rows rows' (synced message scan) = IsGrown-same rows rows' (
    cores-map (λ dev. settle py message scan rows (observe py scan rows dev)) rows
      (core-settle py message scan rows))
Tick-IsGrown py rows rows' (rebooked now default live book) =
    IsGrown-same rows rows' (cores-rebooked py now default live book rows)
Tick-IsGrown py rows rows' (reported cut now hostname report _ e) =
    IsGrown-same rows rows'
      (cores-report_to py cut now report rows rows' (find_device py rows hostname) e)

-- After any number of seedings from the inventory, syncs with the console and with the address book,
-- and reports of machines, in any order: each row that was there is there, with its id, its hostname
-- and its `managed` flag, so that a device that was taken off stays off; new rows come after them.
pub removal_sticks :
    (py : Str) (rows : Table) {rows' : Table} → Ticks py rows rows' → IsGrown rows rows'
removal_sticks py rows done = IsGrown-same rows rows refl
removal_sticks py rows (more {rows'} {rows''} ts t) =
    growth_trans rows rows' rows'' (removal_sticks py rows ts) (Tick-IsGrown py rows' rows'' t)
