-- ===== src/Remote/Rows.antt =====
-- The table of the devices, and the operations on it of
-- app/domains/remote_access/service/devices.py. Names are compared without case.
use infra_scope.Common.{
  same_flag, ℕ, Bool, true, false, not, ◌&&◌, ◌||◌, Option, none, some, List, [], ◌∷◌, ◌++◌, map,
  String, if◌then◌else◌, ◌==◌, nat_eq, string_eq, keep, any, first,
}
use infra_scope.Remote.Device.{
  Str, RemoteAccessDevice, SourceKind, cash_register, computer, media_player, new_device,
  hostname_to_rid, mark_config_stale, preset, is_set, is_number, is_equal,
}

-- By insertion.
abbrev pub Table : Type 0
Table = List RemoteAccessDevice

-- The object of the session with this primary key is changed.
abbrev pub update : ℕ → (RemoteAccessDevice → RemoteAccessDevice) → Table → Table
update id change rows = map (λ dev. if dev.id == id then change dev else dev) rows

abbrev pub get : ℕ → Table → Option RemoteAccessDevice
get id rows = first (λ dev. dev.id == id) rows

abbrev pub has_name : Str → String → RemoteAccessDevice → Bool
has_name py key dev = py.lower dev.hostname == key

unfoldable pub find_device : Str → Table → String → Option RemoteAccessDevice
find_device py rows hostname = first (has_name py (py.lower (py.strip hostname))) rows

abbrev pub created_device : Str → ℕ → String → String → RemoteAccessDevice
created_device py new_id default_password host =
    new_device new_id host (hostname_to_rid py host) computer none default_password

abbrev pub get_or_add :
    RemoteAccessDevice → Table → Option RemoteAccessDevice → RemoteAccessDevice × Table
get_or_add new rows none = (new, rows ++ (new ∷ []))
get_or_add new rows (some dev) = (dev, rows)

-- The row, and the table that has it.
unfoldable pub get_or_create_device : Str → ℕ → String → Table → String → RemoteAccessDevice × Table
unfolding find_device
get_or_create_device py new_id default_password rows hostname =
    get_or_add (created_device py new_id default_password (py.strip hostname)) rows
      (find_device py rows (py.strip hostname))

abbrev pub differs : String → Bool → RemoteAccessDevice → Bool
differs profile flag dev =
    not (dev.deploy_profile == profile)
    || not (same_flag dev.desired_hidden flag)
    || not (same_flag dev.desired_block_outgoing flag)
    || not (same_flag dev.desired_unattended flag)

abbrev pub stale_if : Bool → RemoteAccessDevice → RemoteAccessDevice
stale_if changed dev = if changed then mark_config_stale dev else dev

abbrev pub with_profile : ℕ → String → Bool → RemoteAccessDevice → RemoteAccessDevice
with_profile now profile flag dev =
    record (stale_if (differs profile flag dev) (record dev {
      deploy_profile = profile;
      desired_hidden = flag;
      desired_block_outgoing = flag;
      desired_unattended = flag;
    })) { updated_at = some now }

abbrev pub with_preset : ℕ → ℕ → String → Table → Option Bool → Option Table
with_preset now id profile rows none = none
with_preset now id profile rows (some flag) = some (update id (with_profile now profile flag) rows)

-- `none` is the `ValueError`.
unfoldable pub apply_deploy_profile : ℕ → ℕ → String → Table → Option Table
unfolding mark_config_stale
apply_deploy_profile now id profile rows = with_preset now id profile rows (preset profile)

unfoldable pub rotated : ℕ → String → RemoteAccessDevice → RemoteAccessDevice
unfolding mark_config_stale
rotated now password dev =
    record (mark_config_stale (record dev {
      permanent_password = password;
      password_rotated_at = some now;
      ab_password_pushed = false;
    })) { updated_at = some now }

unfoldable pub rotate_password : ℕ → String → ℕ → Table → Table
unfolding rotated
rotate_password now password id rows = update id (rotated now password) rows

-- An SQL comparison: it holds of no NULL.
abbrev pub equal_texts : Option String → Option String → Bool
equal_texts none y = false
equal_texts (some x) y = is_equal y x

-- `RemoteAccessDevice.rustdesk_id == dev.rustdesk_id`, where neither is NULL.
abbrev pub shares : RemoteAccessDevice → RemoteAccessDevice → Bool
shares dev other = not (other.id == dev.id) && equal_texts dev.rustdesk_id other.rustdesk_id

abbrev pub both : Option ℕ → Option String → Option (ℕ × String)
both (some row_id) (some peer_id) = some (row_id, peer_id)
both row_id peer_id = none

-- The rows of the shared book that the console is asked to drop: its number there, and the peer.
unfoldable pub book_row : Table → RemoteAccessDevice → Option (ℕ × String)
book_row rows dev =
    if is_number dev.ab_row_id && is_set dev.rustdesk_id && not (any (shares dev) rows)
    then both dev.ab_row_id dev.rustdesk_id
    else none

unfoldable pub forgotten : ℕ → RemoteAccessDevice → RemoteAccessDevice
forgotten now dev = record dev {
  managed = false;
  in_address_book = false;
  ab_row_id = none;
  ab_password_pushed = false;
  updated_at = some now;
}

-- The second part is the call of the console, whose failure is only logged.
unfoldable pub delete_device : ℕ → RemoteAccessDevice → Table → Table × Option (ℕ × String)
unfolding book_row forgotten
delete_device now dev rows = (update dev.id (forgotten now) rows, book_row rows dev)

abbrev pub matches : Option String → Option String → Bool
matches wanted actual = if is_set wanted then equal_texts actual wanted else true

abbrev pub is_same : SourceKind → SourceKind → Bool
is_same cash_register cash_register = true
is_same computer computer = true
is_same media_player media_player = true
is_same wanted actual = false

abbrev pub is_kind : Option SourceKind → Bool
is_kind none = false
is_kind (some kind) = true

abbrev pub matches_kind : Option SourceKind → SourceKind → Bool
matches_kind none actual = true
matches_kind (some wanted) actual = is_same wanted actual

-- `None` and the empty list of ids are one.
unfoldable pub resolve_scope : Table → List ℕ → Option String → Bool → Option SourceKind → Table
resolve_scope rows [] location all_managed source_kind =
    if is_set location || is_kind source_kind || all_managed
    then keep
        (λ dev.
          dev.managed && matches location dev.location && matches_kind source_kind dev.source_kind)
        rows
    else []
resolve_scope rows (i ∷ ids) location all_managed source_kind =
    keep (λ dev. any (λ id. id == dev.id) (i ∷ ids)) rows
