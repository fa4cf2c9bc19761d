-- ===== src/Remote/Console.antt =====
-- app/domains/remote_access/service/console.py: what the RustDesk console sees, folded into the
-- devices. The list of the peers is an argument, and so is the text that replaces a failure.
use infra_scope.Common.Int.{ℤ, pos, negsuc}
use infra_scope.Common.{
  ℕ, ◌+◌, ◌-◌, Bool, true, false, not, ◌&&◌, Option, none, some, List, [], ◌∷◌, String, ltb, leb,
  if◌then◌else◌, ◌==◌, nat_eq, string_eq, keep, first,
}
use infra_scope.Remote.Device.{
  Str, RemoteAccessDevice, DeployState, failed, is_text, is_equal, ◌or◌, hostname_to_rid, text_or,
}
use infra_scope.Remote.Rows.{Table, find_device}
use infra_scope.Remote.Inventory.{Inventory, mapped_links, link_inventory}

-- One entry of the admin peer list. `id` is the text of `peer.get("id") or ""`, and
-- `last_online_time` what `int` makes of it, none for an error.
pub record Peer : Type 0 where
  pub id : String
  pub hostname : Option String
  pub last_online_time : Option ℤ
  pub version : Option String
  pub username : Option String
  pub last_online_ip : Option String

-- `stale` is RUSTDESK_DEVICE_STALE_SECONDS.
abbrev pub is_recent : ℕ → ℕ → Option ℤ → Bool
is_recent window now none = false
is_recent window now (some (negsuc n)) = false
is_recent window now (some (pos n)) = not (n == 0) && leb now (n + window)

unfoldable pub peer_online : ℕ → ℕ → Peer → Bool
peer_online window now peer = is_recent window now peer.last_online_time

abbrev pub at_least_zero : Option ℤ → ℕ
at_least_zero none = 0
at_least_zero (some (negsuc n)) = 0
at_least_zero (some (pos n)) = n

unfoldable pub peer_last_online : Peer → ℕ
peer_last_online peer = at_least_zero peer.last_online_time

abbrev pub peer_rid : Str → Peer → String
peer_rid py peer = py.strip peer.id

abbrev pub peer_host : Str → Peer → String
peer_host py peer = py.strip (text_or peer.hostname "")

abbrev pub is_nameless : Str → Peer → Bool
is_nameless py peer = not (is_text (peer_rid py peer)) && not (is_text (peer_host py peer))

-- FAILED_HEAL_AFTER is one hour.
abbrev pub outlived : ℕ → Option ℕ → Bool
outlived now none = true
outlived now (some at) = ltb 3600 (now - at)

abbrev pub is_failed : DeployState → Bool
is_failed failed = true
is_failed _ = false

unfoldable pub failure_outlived : ℕ → RemoteAccessDevice → Bool
failure_outlived now dev = is_failed dev.deploy_state && outlived now dev.deploy_reported_at

abbrev pub owner_name : Str → Option RemoteAccessDevice → Option String
owner_name py none = none
owner_name py (some dev) = some (py.lower dev.hostname)

-- The key in `by_host` that a peer is put under, if any.
unfoldable pub owner : Str → Table → Peer → Option String
unfolding find_device
owner py rows peer =
    if is_nameless py peer
    then none
    else owner_name py (
        find_device py rows
          (if is_text (peer_host py peer) then peer_host py peer else peer_rid py peer))

unfoldable pub group_of : Str → Table → List Peer → RemoteAccessDevice → List Peer
unfolding owner
group_of py rows peers dev =
    keep (λ peer. is_equal (owner py rows peer) (py.lower dev.hostname)) peers

-- `max` keeps the first of those that tie.
unfoldable pub freshest : Peer → List Peer → Peer
unfolding peer_last_online
freshest best [] = best
freshest best (peer ∷ peers) =
    freshest (if ltb (peer_last_online best) (peer_last_online peer) then peer else best) peers

abbrev pub is_canonical : Str → RemoteAccessDevice → String → Bool
is_canonical py dev rid = py.lower rid == py.lower (hostname_to_rid py dev.hostname)

abbrev pub or_peer : Option Peer → Peer → Peer
or_peer none peer = peer
or_peer (some p) peer = p

-- No peer, no preference.
unfoldable pub preferred : Str → RemoteAccessDevice → List Peer → Option Peer
unfolding freshest
preferred py dev [] = none
preferred py dev (peer ∷ peers) = some (
    or_peer (first (λ p. is_canonical py dev (peer_rid py p)) (peer ∷ peers)) (freshest peer peers))

abbrev pub observed : Str → Inventory → ℕ → Option Peer → RemoteAccessDevice → RemoteAccessDevice
observed py inventory now none dev = dev
observed py inventory now (some peer) dev =
    let linked = link_inventory (mapped_links py inventory (py.lower dev.hostname)) dev in
    record linked {
      rustdesk_id =
          if is_text (peer_rid py peer) then some (peer_rid py peer) else linked.rustdesk_id;
      installed_version = peer.version or linked.installed_version;
      logged_in_user = peer.username or linked.logged_in_user;
      last_ip = peer.last_online_ip or linked.last_ip;
      updated_at = some now;
    }

abbrev pub status_entry : Str → ℕ → ℕ → Option Peer → List (String × Bool)
status_entry py window now none = []
status_entry py window now (some peer) =
    if is_text (peer_rid py peer) then (peer_rid py peer, peer_online window now peer) ∷ [] else []

abbrev pub is_healthy : Str → ℕ → ℕ → RemoteAccessDevice → Option Peer → Bool
is_healthy py window now dev none = false
is_healthy py window now dev (some peer) =
    is_text (peer_rid py peer)
    && is_canonical py dev (peer_rid py peer)
    && peer_online window now peer
