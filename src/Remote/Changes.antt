-- ===== src/Remote/Changes.antt =====
-- The runs of app/domains/remote_access/service/ on the table as steps: what happens by itself (the
-- sync of the worker, and the report of a machine) and what an operator asks for.
use infra_scope.Common.{ℕ, ◌≡◌, Bool, Option, some, [], String}
use infra_scope.Remote.Device.{Str, RemoteAccessDevice}
use infra_scope.Remote.Rows.{Table, apply_deploy_profile, rotate_password, delete_device}
use infra_scope.Remote.Inventory.{Inventory, seed_from_inventory}
use infra_scope.Remote.Mirror.{
  refresh_status_from_inventory, ensure_device, Released, release_inventory_row,
}
use infra_scope.Remote.Deployment.{mark_deploy_requested, Report, apply_deploy_report}
use infra_scope.Remote.Sync.{Scan, sync_from_console, adopt_peer, dismiss_peer}
use infra_scope.Remote.AddressBook.{Book, Listed, push_shared_address_book, sync_stale_address_book}

pub data Tick (py : Str) (rows : Table) : Table → Type 0 where
  seeded :
      (inventory : Inventory) (new_id : ℕ → ℕ) (password : ℕ → String)
      → Tick py rows (seed_from_inventory py inventory new_id password rows).0
  refreshed :
      (now : ℕ) (inventory : Inventory)
      → Tick py rows (refresh_status_from_inventory now inventory rows).0
  synced :
      (message : Option String → Option String → String) (scan : Scan)
      → Tick py rows (sync_from_console py message scan rows).0
  rebooked :
      (now : ℕ) (default_password : String) (live : Listed) (book : Book)
      → Tick py rows (sync_stale_address_book py now default_password live book rows).0
  reported :
      (cut : String → String) (now : ℕ) (hostname : String) (report : Report) (rows' : Table)
      → apply_deploy_report py cut now hostname report rows ≡ some rows'
      → Tick py rows rows'

pub data Change (py : Str) (rows : Table) : Table → Type 0 where
  by_itself : (rows' : Table) → Tick py rows rows' → Change py rows rows'
  pushed :
      (now : ℕ) (default_password : String) (book : Book) (chosen : RemoteAccessDevice → Bool)
      → Change py rows (push_shared_address_book py now default_password book chosen rows).0
  profiled :
      (now id : ℕ) (profile : String) (rows' : Table)
      → apply_deploy_profile now id profile rows ≡ some rows'
      → Change py rows rows'
  rotated :
      (now : ℕ) (password : String) (id : ℕ) → Change py rows (rotate_password now password id rows)
  deleted : (now : ℕ) (dev : RemoteAccessDevice) → Change py rows (delete_device now dev rows).0
  requested : (now id : ℕ) → Change py rows (mark_deploy_requested now id rows)
  ensured :
      (inventory : Inventory) (now new_id : ℕ) (default hostname : String)
      (rustdesk_id permanent_password : Option String)
      → Change py rows
          (ensure_device py inventory now new_id default hostname rustdesk_id permanent_password
            rows).1
  released : (now : ℕ) (gone : Released) → Change py rows (release_inventory_row now gone rows).0
  adopted :
      (inventory : Inventory) (now new_id : ℕ) (default hostname : String) (profile : Option String)
      → Change py rows (adopt_peer py inventory now new_id default hostname profile rows).0
  dismissed :
      (new_id : ℕ) (default hostname : String)
      → Change py rows (dismiss_peer py new_id default hostname rows)

-- What a history of the table can come to, from the empty one.
pub data Reach (py : Str) : Table → Type 0 where
  empty : Reach py []
  next : {rows rows' : Table} → Reach py rows → Change py rows rows' → Reach py rows'

-- Any number of runs that no operator asks for.
pub data Ticks (py : Str) (rows : Table) : Table → Type 0 where
  done : Ticks py rows rows
  more : {rows' rows'' : Table} → Ticks py rows rows' → Tick py rows' rows'' → Ticks py rows rows''
