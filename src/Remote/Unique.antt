-- ===== src/Remote/Unique.antt =====
-- Every change of app/domains/remote_access/service/ and the names of the rows.
use infra_scope.Common.{ℕ, ◌≡◌, refl, sym, ap, Option, none, some, String, nat_eq, keep}
use infra_scope.Remote.Device.{Str, RemoteAccessDevice, preset, text_or}
use infra_scope.Remote.Labels.{suggested_profile}
use infra_scope.Remote.Rows.{
  Table, update, find_device, get_or_create_device, get_or_add, created_device,
  apply_deploy_profile, rotate_password, rotated,
}
use infra_scope.Remote.Inventory.{Inventory, seed_from_inventory, inventory_rows}
use infra_scope.Remote.Mirror.{
  refresh_status_from_inventory, refresh_row, ensure_device, stamp, release_inventory_row, is_hit,
}
use infra_scope.Remote.Deployment.{mark_deploy_requested, requested, apply_deploy_report}
use infra_scope.Remote.Sync.{
  sync_from_console, settle, observe, adopt_peer, dismiss_peer, dismissed,
}
use infra_scope.Remote.Kept.{core→name, core-refresh_row, core-settle}
use infra_scope.Remote.Requests.{core-requested, core-rotated, name-dismissed, name-stamp}
use infra_scope.Remote.Names.{
  names, Distinct, names-map, names-update, Distinct-add, seed_rows-Distinct,
}
use infra_scope.Remote.Changes.{
  Tick, seeded, refreshed, synced, rebooked, Change, by_itself, pushed, profiled, deleted, ensured,
  released, adopted, Reach, empty, next,
}
use infra_scope.Remote.Changes
use infra_scope.Remote.Renaming.{
  same_names, names-push, names-rebooked, names-report_to, names-with_preset, names-applied,
  names-deleted, names-released,
}

module _ (py : Str) where
  Tick-Distinct :
      (rows rows' : Table)
      → Tick py rows rows'
      → Distinct (names py rows)
      → Distinct (names py rows')
  unfolding seed_from_inventory refresh_status_from_inventory sync_from_console apply_deploy_report
  Tick-Distinct rows _ (seeded inventory new_id password) d =
      seed_rows-Distinct py inventory new_id password 0 (inventory_rows py inventory) rows d
  Tick-Distinct rows rows' (refreshed now inventory) d =
      same_names py rows rows'
        (names-map py (refresh_row now inventory) rows (λ dev.
          core→name (refresh_row now inventory dev) dev (core-refresh_row now inventory dev)))
        d
  Tick-Distinct rows rows' (synced message scan) d =
      same_names py rows rows'
        (names-map py (λ dev. settle py message scan rows (observe py scan rows dev)) rows
          (λ dev.
            core→name (settle py message scan rows (observe py scan rows dev)) dev
              (core-settle py message scan rows dev)))
        d
  Tick-Distinct rows rows' (rebooked now default live book) d =
      same_names py rows rows' (names-rebooked py now default live book rows) d
  Tick-Distinct rows rows' (Changes.reported cut now hostname report _ e) d =
      same_names py rows rows'
        (names-report_to py cut now report rows rows' (find_device py rows hostname) e) d

  module _ (strip-strip : (t : String) → py.strip (py.strip t) ≡ py.strip t) where
    get_or_add-Distinct :
        (new_id : ℕ) (default host : String) (rows : Table) (found : Option RemoteAccessDevice)
        → py.strip host ≡ host
        → find_device py rows host ≡ found
        → Distinct (names py rows)
        → Distinct (names py (get_or_add (created_device py new_id default host) rows found).1)
    unfolding find_device
    get_or_add-Distinct new_id default host rows none stripped free d =
        Distinct-add py (py.lower (py.strip host)) rows (created_device py new_id default host) d
          free (ap py.lower (sym stripped))
    get_or_add-Distinct new_id default host rows (some dev) stripped free d = d

    created-Distinct :
        (new_id : ℕ) (default hostname : String) (rows : Table)
        → Distinct (names py rows)
        → Distinct (names py (get_or_create_device py new_id default rows hostname).1)
    unfolding get_or_create_device
    created-Distinct new_id default hostname rows =
        get_or_add-Distinct new_id default (py.strip hostname) rows
          (find_device py rows (py.strip hostname)) (strip-strip hostname) refl

    ensure_device-Distinct :
        (inventory : Inventory) (now new_id : ℕ) (default hostname : String)
        (rid password : Option String) (rows : Table)
        → Distinct (names py rows)
        → Distinct
            (names py (ensure_device py inventory now new_id default hostname rid password rows).1)
    unfolding ensure_device
    ensure_device-Distinct inventory now new_id default hostname rid password rows d =
        let made = get_or_create_device py new_id default rows hostname in
        same_names py made.1
          (update made.0.id (stamp py inventory now default hostname rid password) made.1)
          (names-update py made.0.id (stamp py inventory now default hostname rid password) made.1
            (name-stamp py inventory now default hostname rid password))
          (created-Distinct new_id default hostname rows d)

    Change-Distinct :
        (rows rows' : Table)
        → Change py rows rows'
        → Distinct (names py rows)
        → Distinct (names py rows')
    unfolding apply_deploy_profile rotate_password mark_deploy_requested release_inventory_row
        adopt_peer dismiss_peer
    Change-Distinct rows rows' (by_itself _ t) d = Tick-Distinct rows rows' t d
    Change-Distinct rows rows' (pushed now default book chosen) d =
        same_names py rows rows' (names-push py now default book chosen rows) d
    Change-Distinct rows rows' (profiled now id profile _ e) d =
        same_names py rows rows' (names-with_preset py now id profile rows rows' (preset profile) e)
          d
    Change-Distinct rows rows' (Changes.rotated now password id) d =
        same_names py rows rows'
          (names-update py id (rotated now password) rows
            (λ dev. core→name (rotated now password dev) dev (core-rotated now password dev)))
          d
    Change-Distinct rows rows' (deleted now dev) d =
        same_names py rows rows' (names-deleted py now dev rows) d
    Change-Distinct rows rows' (Changes.requested now id) d =
        same_names py rows rows'
          (names-update py id (requested now) rows
            (λ dev. core→name (requested now dev) dev (core-requested now dev)))
          d
    Change-Distinct rows rows' (ensured inventory now new_id default hostname rid password) d =
        ensure_device-Distinct inventory now new_id default hostname rid password rows d
    Change-Distinct rows rows' (released now gone) d =
        same_names py rows rows' (names-released py now gone (keep (is_hit gone) rows) rows) d
    Change-Distinct rows rows' (adopted inventory now new_id default hostname profile) d =
        let made = ensure_device py inventory now new_id default hostname none none rows in
        same_names py made.1 rows'
          (names-applied py now made.0 (text_or profile (suggested_profile py hostname)) made.1
            (apply_deploy_profile now made.0 (text_or profile (suggested_profile py hostname))
              made.1)
            refl)
          (ensure_device-Distinct inventory now new_id default hostname none none rows d)
    Change-Distinct rows rows' (Changes.dismissed new_id default hostname) d =
        let made = get_or_create_device py new_id default rows hostname in
        same_names py made.1 (update made.0.id dismissed made.1)
          (names-update py made.0.id dismissed made.1 name-dismissed)
          (created-Distinct new_id default hostname rows d)

-- `str.strip` of a stripped text is the text. Then in every history of the table, from the empty
-- one, with seeding, syncs, reports, pushes, requests, releases, adoptions and dismissals in any
-- order, no two rows have one hostname, letter case aside.
pub unique_hostnames :
    (py : Str) (strip-strip : (t : String) → py.strip (py.strip t) ≡ py.strip t) {rows : Table}
    → Reach py rows
    → Distinct (names py rows)
unique_hostnames py strip-strip empty = tt
unique_hostnames py strip-strip (next {rows} {rows'} r c) =
    Change-Distinct py strip-strip rows rows' c (unique_hostnames py strip-strip r)
