-- ===== src/Remote/Mirror.antt =====
-- The operations of app/domains/remote_access/service/inventory.py on devices that exist: their
-- status, an operator's request, and the end of an inventory row.
use infra_scope.Common.{
  same_answer, ℕ, Bool, true, false, not, ◌||◌, Option, none, some, List, [], ◌∷◌, map, String,
  if◌then◌else◌, ◌==◌, nat_eq, string_eq, keep, first, length,
}
use infra_scope.Remote.Device.{
  Str, RemoteAccessDevice, hostname_to_rid, mark_config_stale, is_set, is_text,
}
use infra_scope.Remote.Rows.{Table, update, get_or_create_device, delete_device, stale_if}
use infra_scope.Remote.Inventory.{Inventory, queried_links, link_inventory}

-- What a row of the inventory says: `is_online` and `last_polled_at`. A link may dangle.
abbrev pub Status : Type 0
Status = Option Bool × Option ℕ

abbrev pub or_else : Option Status → Status → Status
or_else none status = status
or_else (some status) other = status

abbrev pub computer_status : Inventory → Option ℕ → Option Status
computer_status inventory none = none
computer_status inventory (some id) = elim (first (λ c. c.id == id) inventory.computers) [
  | none ↦ none
  | some c ↦ some (c.is_online, c.last_polled_at)
]

abbrev pub register_status : Inventory → Option ℕ → Option Status
register_status inventory none = none
register_status inventory (some id) = elim (first (λ r. r.id == id) inventory.registers) [
  | none ↦ none
  | some r ↦ some (r.is_online, r.last_polled_at)
]

abbrev pub player_status : Inventory → Option ℕ → Option Status
player_status inventory none = none
player_status inventory (some id) = elim (first (λ m. m.id == id) inventory.players) [
  | none ↦ none
  | some m ↦ some (m.is_online, m.last_polled_at)
]

unfoldable pub inventory_status : Inventory → RemoteAccessDevice → Status
inventory_status inventory dev = or_else (computer_status inventory dev.computer_id) (
    or_else (register_status inventory dev.cash_register_id)
      (or_else (player_status inventory dev.media_player_id) (none, none)))

abbrev pub same_time : Option ℕ → Option ℕ → Bool
same_time none none = true
same_time (some a) (some b) = a == b
same_time a b = false

abbrev pub is_changed : RemoteAccessDevice → Status → Bool
is_changed dev (none, polled) = false
is_changed dev (some inv_online, polled) =
    not (same_answer dev.host_online (some inv_online))
    || not (same_time dev.host_last_seen_at polled)

abbrev pub with_status : ℕ → RemoteAccessDevice → Status → RemoteAccessDevice
with_status now dev (inv_online, inv_polled) = record dev {
  host_online = inv_online;
  host_last_seen_at = inv_polled;
  updated_at = some now;
}

unfoldable pub refresh_row : ℕ → Inventory → RemoteAccessDevice → RemoteAccessDevice
unfolding inventory_status
refresh_row now inventory dev =
    if is_changed dev (inventory_status inventory dev)
    then with_status now dev (inventory_status inventory dev)
    else dev

unfoldable pub refresh_status_from_inventory : ℕ → Inventory → Table → Table × ℕ
unfolding refresh_row
refresh_status_from_inventory now inventory rows = (
  map (refresh_row now inventory) rows,
  length (keep (λ dev. is_changed dev (inventory_status inventory dev)) rows),
)

-- `if rustdesk_id`, and then `elif not dev.rustdesk_id`.
abbrev pub desired_id : Str → String → Option String → RemoteAccessDevice → RemoteAccessDevice
desired_id py hostname rustdesk_id dev = record dev {
  rustdesk_id =
      if is_set rustdesk_id
      then rustdesk_id
      else if is_set dev.rustdesk_id
      then dev.rustdesk_id
      else some (hostname_to_rid py hostname);
}

abbrev pub never_blank : ℕ → String → RemoteAccessDevice → RemoteAccessDevice
never_blank now default dev =
    if is_text dev.permanent_password
    then dev
    else record dev { permanent_password = default; password_rotated_at = some now }

abbrev pub with_password : ℕ → String → RemoteAccessDevice → RemoteAccessDevice
with_password now password dev = record dev {
  permanent_password = password;
  password_rotated_at = some now;
  ab_password_pushed = false;
}

abbrev pub desired_password : ℕ → String → Option String → RemoteAccessDevice → RemoteAccessDevice
desired_password now default none dev = never_blank now default dev
desired_password now default (some password) dev =
    if is_text password then with_password now password dev else never_blank now default dev

abbrev pub same_text : Option String → Option String → Bool
same_text none none = true
same_text (some a) (some b) = a == b
same_text a b = false

-- The id and the password of an existing row before the call are those of `was`.
abbrev pub edited : RemoteAccessDevice → RemoteAccessDevice → Bool
edited was dev =
    not (same_text dev.rustdesk_id was.rustdesk_id)
    || not (dev.permanent_password == was.permanent_password)

abbrev pub tracked : ℕ → RemoteAccessDevice → RemoteAccessDevice
tracked now dev = record dev { managed = true; updated_at = some now }

unfoldable pub stamp :
    Str
    → Inventory
    → ℕ
    → String
    → String
    → Option String
    → Option String
    → RemoteAccessDevice
    → RemoteAccessDevice
unfolding queried_links link_inventory mark_config_stale
stamp py inventory now default hostname rustdesk_id permanent_password dev =
    let linked = link_inventory (queried_links py inventory (py.lower dev.hostname)) dev in
    let asked =
      desired_password now default permanent_password (desired_id py hostname rustdesk_id linked) in
    tracked now (stale_if (edited linked asked) asked)

-- The id of the row, and the table.
unfoldable pub ensure_device :
    Str → Inventory → ℕ → ℕ → String → String → Option String → Option String → Table → ℕ × Table
unfolding get_or_create_device stamp
ensure_device py inventory now new_id default hostname rustdesk_id permanent_password rows =
    let (dev, all) = get_or_create_device py new_id default rows hostname in
    (
      dev.id,
      update dev.id (stamp py inventory now default hostname rustdesk_id permanent_password) all,
    )

-- The rows of the inventory that are about to be deleted.
pub record Released : Type 0 where
  pub computer_id : Option ℕ
  pub cash_register_id : Option ℕ
  pub media_player_id : Option ℕ

abbrev pub points : Option ℕ → Option ℕ → Bool
points none link = false
points (some id) none = false
points (some id) (some link) = link == id

abbrev pub is_hit : Released → RemoteAccessDevice → Bool
is_hit gone dev =
    points gone.computer_id dev.computer_id
    || points gone.cash_register_id dev.cash_register_id
    || points gone.media_player_id dev.media_player_id

abbrev pub unless_gone : Option ℕ → Option ℕ → Option ℕ
unless_gone gone link = if points gone link then none else link

unfoldable pub unlinked : Released → RemoteAccessDevice → RemoteAccessDevice
unlinked gone dev = record dev {
  computer_id = unless_gone gone.computer_id dev.computer_id;
  cash_register_id = unless_gone gone.cash_register_id dev.cash_register_id;
  media_player_id = unless_gone gone.media_player_id dev.media_player_id;
}

-- The calls of the console come with the table.
unfoldable pub release_each :
    ℕ → Released → List RemoteAccessDevice → Table → Table × List (Option (ℕ × String))
unfolding delete_device unlinked
release_each now gone [] rows = (rows, [])
release_each now gone (dev ∷ devices) rows =
    let (deleted, call) = delete_device now dev rows in
    let (result, calls) = release_each now gone devices (update dev.id (unlinked gone) deleted) in
    (result, call ∷ calls)

-- With no id given no row is hit.
unfoldable pub release_inventory_row : ℕ → Released → Table → Table × List (Option (ℕ × String))
unfolding release_each
release_inventory_row now gone rows = release_each now gone (keep (is_hit gone) rows) rows
