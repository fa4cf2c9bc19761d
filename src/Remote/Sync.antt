-- ===== src/Remote/Sync.antt =====
-- The operations of app/domains/remote_access/service/console.py on the table.
use infra_scope.Common.{
  same_answer, ℕ, Bool, true, false, not, ◌&&◌, ◌||◌, Option, none, some, List, [], ◌∷◌, ◌++◌, map,
  String, ltb, if◌then◌else◌, ◌==◌, nat_eq, string_eq, keep, any, length,
}
use infra_scope.Remote.Device.{
  Str, RemoteAccessDevice, DeployState, pending, stale, configured, is_text, text_or,
}
use infra_scope.Remote.Labels.{suggested_profile}
use infra_scope.Remote.Rows.{Table, update, get_or_create_device, apply_deploy_profile}
use infra_scope.Remote.Inventory.{Inventory}
use infra_scope.Remote.Mirror.{ensure_device}
use infra_scope.Remote.Console.{
  Peer, peer_host, peer_last_online, is_nameless, group_of, preferred, observed, status_entry,
  is_healthy, failure_outlived,
}

-- What one run reads: the clock, RUSTDESK_DEVICE_STALE_SECONDS, the inventory and the peers.
pub record Scan : Type 0 where
  pub now : ℕ
  pub window : ℕ
  pub inventory : Inventory
  pub peers : List Peer

abbrev pub chosen : Str → Scan → Table → RemoteAccessDevice → Option Peer
chosen py scan rows dev = preferred py dev (group_of py rows scan.peers dev)

-- The first loop over the devices.
unfoldable pub observe : Str → Scan → Table → RemoteAccessDevice → RemoteAccessDevice
observe py scan rows dev = observed py scan.inventory scan.now (chosen py scan rows dev) dev

-- `status`, by insertion.
unfoldable pub status : Str → Scan → Table → Table → List (String × Bool)
status py scan rows [] = []
status py scan rows (dev ∷ devs) =
    status_entry py scan.window scan.now (chosen py scan rows dev) ++ status py scan rows devs

-- The value that a dict has for the key: the last that was set.
unfoldable pub status_of : List (String × Bool) → String → Option Bool
status_of [] rid = none
status_of ((key, value) ∷ entries) rid = elim (status_of entries rid) [
  | some later ↦ some later
  | none ↦ if key == rid then some value else none
]

-- `dev.hostname.lower() in healthy_canonical`
unfoldable pub is_healthy_name : Str → Scan → Table → String → Bool
is_healthy_name py scan rows key =
    any
      (λ dev.
        is_healthy py scan.window scan.now dev (chosen py scan rows dev)
        && (py.lower dev.hostname == key))
      rows

abbrev pub with_online : ℕ → Option Bool → RemoteAccessDevice → RemoteAccessDevice
with_online now want dev =
    if same_answer dev.online want then dev else record dev { online = want; updated_at = some now }

-- `changed` is set with the missing time, so `online` and `updated_at` are written.
abbrev pub unseen : ℕ → Option ℕ → RemoteAccessDevice → RemoteAccessDevice
unseen now none dev = with_online now none dev
unseen now (some at) dev = record dev { online = none; last_seen_at = none; updated_at = some now }

abbrev pub seen_now : ℕ → Option Bool → RemoteAccessDevice → RemoteAccessDevice
seen_now now (some true) dev = with_online now (some true) (record dev { last_seen_at = some now })
seen_now now (some false) dev = with_online now (some false) dev
seen_now now none dev = unseen now dev.last_seen_at dev

-- The states that a client under its canonical id clears.
abbrev pub is_waiting : DeployState → Bool → Bool
is_waiting pending pushed = true
is_waiting stale pushed = pushed
is_waiting _ pushed = false

-- By the two tests.
abbrev pub closed_by :
    (Option String → Option String → String)
    → ℕ
    → Bool
    → Bool
    → RemoteAccessDevice
    → RemoteAccessDevice
closed_by message now true over dev = record dev {
  deploy_state = configured;
  deploy_reported_at = some now;
  updated_at = some now;
}
closed_by message now false true dev = record dev {
  deploy_state = configured;
  deploy_detail = some (message dev.rustdesk_id dev.deploy_detail);
  deploy_reported_at = some now;
  updated_at = some now;
}
closed_by message now false false dev = dev

unfoldable pub healed :
    (Option String → Option String → String) → ℕ → Bool → RemoteAccessDevice → RemoteAccessDevice
unfolding failure_outlived
healed message now healthy dev =
    closed_by message now (healthy && is_waiting dev.deploy_state dev.ab_password_pushed)
      (healthy && failure_outlived now dev) dev

-- The second loop, over a row that the first has changed.
abbrev pub settle :
    Str
    → (Option String → Option String → String)
    → Scan
    → Table
    → RemoteAccessDevice
    → RemoteAccessDevice
settle py message scan rows dev =
    healed message scan.now (is_healthy_name py scan rows (py.lower dev.hostname))
      (seen_now scan.now (status_of (status py scan rows rows) (text_or dev.rustdesk_id "")) dev)

abbrev pub peers_seen : Str → List Peer → ℕ
peers_seen py peers = length (keep (λ peer. not (is_nameless py peer)) peers)

unfoldable pub sync_from_console :
    Str → (Option String → Option String → String) → Scan → Table → Table × ℕ
unfolding observe status status_of is_healthy_name healed
sync_from_console py message scan rows = (
  map (λ dev. settle py message scan rows (observe py scan rows dev)) rows,
  peers_seen py scan.peers,
)

-- `best`, by insertion.
abbrev pub Best : Type 0
Best = List (String × Peer)

unfoldable pub better : String → Peer → Best → Best
unfolding peer_last_online
better key peer [] = (key, peer) ∷ []
better key peer ((k, p) ∷ best) =
    if k == key
    then (k, if ltb (peer_last_online p) (peer_last_online peer) then peer else p) ∷ best
    else (k, p) ∷ better key peer best

abbrev pub is_known : Str → Table → String → Bool
is_known py rows key = any (λ dev. is_text dev.hostname && (py.lower dev.hostname == key)) rows

unfoldable pub unlisted : Str → Table → List Peer → Best → Best
unfolding better
unlisted py rows [] best = best
unlisted py rows (peer ∷ peers) best = unlisted py rows peers (
    if not (is_text (peer_host py peer)) || is_known py rows (py.lower (peer_host py peer))
    then best
    else better (py.lower (peer_host py peer)) peer best)

-- The names and peers of the items, before they are sorted, and the count of the nameless.
unfoldable pub list_unlisted_console_peers : Str → Table → List Peer → Best × ℕ
unfolding unlisted
list_unlisted_console_peers py rows peers =
    (unlisted py rows peers [], length (keep (λ peer. not (is_text (peer_host py peer))) peers))

abbrev pub applied_or : Table → Option Table → Table × Bool
applied_or rows none = (rows, false)
applied_or rows (some applied) = (applied, true)

-- Whether the profile is one; for another the device is there and the `ValueError` is raised.
unfoldable pub adopt_peer :
    Str → Inventory → ℕ → ℕ → String → String → Option String → Table → Table × Bool
unfolding ensure_device suggested_profile apply_deploy_profile
adopt_peer py inventory now new_id default hostname profile rows =
    let ensured = ensure_device py inventory now new_id default hostname none none rows in
    applied_or ensured.1 (
      apply_deploy_profile now ensured.0 (text_or profile (suggested_profile py hostname))
        ensured.1)

unfoldable pub dismissed : RemoteAccessDevice → RemoteAccessDevice
dismissed dev = record dev { managed = false }

unfoldable pub dismiss_peer : Str → ℕ → String → String → Table → Table
unfolding get_or_create_device dismissed
dismiss_peer py new_id default hostname rows =
    let (dev, all) = get_or_create_device py new_id default rows hostname in
    update dev.id dismissed all
