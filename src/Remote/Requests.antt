-- ===== src/Remote/Requests.antt =====
-- What pushes, reports and requests of app/domains/remote_access/service/ leave as it is in a row.
use infra_scope.Common.{
  ℕ, ◌≡◌, refl, ◌∙◌, Bool, false, ◌&&◌, Option, none, some, String, if◌then◌else◌, nat_eq,
}
use infra_scope.Remote.Device.{Str, RemoteAccessDevice, is_text}
use infra_scope.Remote.Rows.{stale_if, with_profile, rotated, forgotten, differs}
use infra_scope.Remote.Inventory.{Inventory, link_inventory, queried_links}
use infra_scope.Remote.Mirror.{
  stamp, desired_id, desired_password, never_blank, edited, unlinked, Released,
}
use infra_scope.Remote.Deployment.{requested, reported, Report}
use infra_scope.Remote.Sync.{dismissed}
use infra_scope.Remote.AddressBook.{
  Book, pushed, numbered, pushed_row, rechecked, Listed, is_missing,
}
use infra_scope.Remote.Kept.{
  name, core, core→name, if_keeps, core-mark_config_stale, core-stale_if, core-link_inventory,
}

pub core-pushed :
    (py : Str) (now : ℕ) (book : Book) (dev : RemoteAccessDevice)
    → core (pushed py now book dev) ≡ core dev
unfolding pushed
core-pushed py now book dev = if_keeps core (book.accepts dev.id) refl refl

pub core-pushed_row :
    (py : Str) (now : ℕ) (book : Book) (created : Bool) (dev : RemoteAccessDevice)
    → core (pushed_row py now book created dev) ≡ core dev
unfolding numbered
core-pushed_row py now book created dev =
    if_keeps core created (core-pushed py now book dev) (core-pushed py now book dev)

pub core-pushed_if :
    (py : Str) (now : ℕ) (book : Book) (target created : Bool) (dev : RemoteAccessDevice)
    → core (if target then pushed_row py now book created dev else dev) ≡ core dev
core-pushed_if py now book target created dev =
    if_keeps core target (core-pushed_row py now book created dev) refl

pub core-rechecked :
    (live : Listed) (dev : RemoteAccessDevice) → core (rechecked live dev) ≡ core dev
unfolding rechecked
core-rechecked live dev = if_keeps core (dev.managed && is_missing live dev) refl refl

pub core-reported :
    (py : Str) (cut : String → String) (now : ℕ) (report : Report) (dev : RemoteAccessDevice)
    → core (reported py cut now report dev) ≡ core dev
unfolding reported
core-reported py cut now report dev = refl

pub core-requested : (now : ℕ) (dev : RemoteAccessDevice) → core (requested now dev) ≡ core dev
unfolding requested
core-requested now dev = refl

pub core-rotated :
    (now : ℕ) (password : String) (dev : RemoteAccessDevice)
    → core (rotated now password dev) ≡ core dev
unfolding rotated
core-rotated now password dev = core-mark_config_stale (record dev {
  permanent_password = password;
  password_rotated_at = some now;
  ab_password_pushed = false;
})

pub core-with_profile :
    (now : ℕ) (profile : String) (flag : Bool) (dev : RemoteAccessDevice)
    → core (with_profile now profile flag dev) ≡ core dev
core-with_profile now profile flag dev = core-stale_if (differs profile flag dev) (record dev {
  deploy_profile = profile;
  desired_hidden = flag;
  desired_block_outgoing = flag;
  desired_unattended = flag;
})

pub core-unlinked :
    (gone : Released) (dev : RemoteAccessDevice) → core (unlinked gone dev) ≡ core dev
unfolding unlinked
core-unlinked gone dev = refl

pub name-forgotten : (now : ℕ) (dev : RemoteAccessDevice) → name (forgotten now dev) ≡ name dev
unfolding forgotten
name-forgotten now dev = refl

pub name-dismissed : (dev : RemoteAccessDevice) → name (dismissed dev) ≡ name dev
unfolding dismissed
name-dismissed dev = refl

core-never_blank :
    (now : ℕ) (default : String) (dev : RemoteAccessDevice)
    → core (never_blank now default dev) ≡ core dev
core-never_blank now default dev = if_keeps core (is_text dev.permanent_password) refl refl

core-desired_password :
    (now : ℕ) (default : String) (password : Option String) (dev : RemoteAccessDevice)
    → core (desired_password now default password dev) ≡ core dev
core-desired_password now default none dev = core-never_blank now default dev
core-desired_password now default (some password) dev =
    if_keeps core (is_text password) refl (core-never_blank now default dev)

pub name-stamp :
    (py : Str) (inventory : Inventory) (now : ℕ) (default hostname : String)
    (rustdesk_id password : Option String) (dev : RemoteAccessDevice)
    → name (stamp py inventory now default hostname rustdesk_id password dev) ≡ name dev
unfolding stamp
name-stamp py inventory now default hostname rustdesk_id password dev =
    let linked = link_inventory (queried_links py inventory (py.lower dev.hostname)) dev in
    let asked = desired_password now default password (desired_id py hostname rustdesk_id linked) in
    core→name (stale_if (edited linked asked) asked) dev (
      core-stale_if (edited linked asked) asked
      ∙ core-desired_password now default password (desired_id py hostname rustdesk_id linked)
      ∙ core-link_inventory (queried_links py inventory (py.lower dev.hostname)) dev)
