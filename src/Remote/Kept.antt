-- ===== src/Remote/Kept.antt =====
-- What the operations of app/domains/remote_access/service/ leave as it is in a row.
use infra_scope.Common.{
  ℕ, ◌≡◌, refl, ap, ◌∙◌, Bool, true, false, ◌&&◌, Option, none, some, String, if◌then◌else◌, nat_eq,
  arith,
}
use infra_scope.Remote.Device.{
  Str, RemoteAccessDevice, DeployState, unknown, pending, installed, configured, failed, stale,
  mark_config_stale, staled, text_or,
}
use infra_scope.Remote.Rows.{Table, stale_if}
use infra_scope.Remote.Inventory.{
  Computer, CashRegister, MediaPlayer, Inventory, Links, link_computer, link_register, link_player,
  link_inventory, mapped_links,
}
use infra_scope.Remote.Mirror.{refresh_row, Status, is_changed, inventory_status, with_status}
use infra_scope.Remote.Console.{Peer, observed, failure_outlived}
use infra_scope.Remote.Sync.{
  Scan, settle, observe, healed, seen_now, unseen, with_online, chosen, is_waiting, closed_by,
  status, status_of, is_healthy_name,
}

-- The primary key, the name, and whether the device is managed.
abbrev pub core : RemoteAccessDevice → ℕ × String × Bool
core dev = (dev.id, dev.hostname, dev.managed)

abbrev pub name : RemoteAccessDevice → ℕ × String
name dev = (dev.id, dev.hostname)

-- What a look at the console keeps: the core, and what the rollout says.
abbrev pub kept : RemoteAccessDevice → ℕ × String × Bool × DeployState × Option ℕ × Bool
kept dev = (
  dev.id, dev.hostname, dev.managed, dev.deploy_state, dev.deploy_reported_at,
  dev.ab_password_pushed,
)

pub kept→core : (d d' : RemoteAccessDevice) → kept d ≡ kept d' → core d ≡ core d'
kept→core d d' e = ap (λ k. (k.0, k.1, k.2)) e

pub core→name : (d d' : RemoteAccessDevice) → core d ≡ core d' → name d ≡ name d'
core→name d d' e = ap (λ c. (c.0, c.1)) e

-- An `if` keeps what both branches keep.
pub if_keeps {ℓ} :
    {A : Type ℓ} (f : RemoteAccessDevice → A) {a : A} (b : Bool) {x y : RemoteAccessDevice}
    → f x ≡ a
    → f y ≡ a
    → f (if b then x else y) ≡ a
if_keeps f true e e' = e
if_keeps f false e e' = e'

core-staled : (state : DeployState) (dev : RemoteAccessDevice) → core (staled state dev) ≡ core dev
core-staled unknown dev = refl
core-staled pending dev = refl
core-staled installed dev = refl
core-staled configured dev = refl
core-staled failed dev = refl
core-staled stale dev = refl

pub core-mark_config_stale : (dev : RemoteAccessDevice) → core (mark_config_stale dev) ≡ core dev
unfolding mark_config_stale
core-mark_config_stale dev = core-staled dev.deploy_state dev

pub core-stale_if : (b : Bool) (dev : RemoteAccessDevice) → core (stale_if b dev) ≡ core dev
core-stale_if b dev = if_keeps core b (core-mark_config_stale dev) refl

kept-link_computer :
    (id : Option ℕ) (comp : Option Computer) (dev : RemoteAccessDevice)
    → kept (link_computer id comp dev) ≡ kept dev
kept-link_computer none none dev = refl
kept-link_computer none (some c) dev = refl
kept-link_computer (some id) none dev = refl
kept-link_computer (some id) (some c) dev = refl

kept-link_register :
    (id : Option ℕ) (cr : Option CashRegister) (dev : RemoteAccessDevice)
    → kept (link_register id cr dev) ≡ kept dev
kept-link_register none none dev = refl
kept-link_register none (some c) dev = refl
kept-link_register (some id) none dev = refl
kept-link_register (some id) (some c) dev = refl

kept-link_player :
    (id : Option ℕ) (mp : Option MediaPlayer) (dev : RemoteAccessDevice)
    → kept (link_player id mp dev) ≡ kept dev
kept-link_player none none dev = refl
kept-link_player none (some m) dev = refl
kept-link_player (some id) none dev = refl
kept-link_player (some id) (some m) dev = refl

kept-link_inventory :
    (links : Links) (dev : RemoteAccessDevice) → kept (link_inventory links dev) ≡ kept dev
unfolding link_inventory
kept-link_inventory links dev =
    let linked = link_computer dev.computer_id links.comp dev in
    let registered = link_register linked.cash_register_id links.cr linked in
    kept-link_player registered.media_player_id links.mp registered
    ∙ kept-link_register linked.cash_register_id links.cr linked
    ∙ kept-link_computer dev.computer_id links.comp dev

pub core-link_inventory :
    (links : Links) (dev : RemoteAccessDevice) → core (link_inventory links dev) ≡ core dev
core-link_inventory links dev =
    kept→core (link_inventory links dev) dev (kept-link_inventory links dev)

core-with_status :
    (now : ℕ) (dev : RemoteAccessDevice) (s : Status) → core (with_status now dev s) ≡ core dev
core-with_status now dev (online, polled) = refl

pub core-refresh_row :
    (now : ℕ) (inventory : Inventory) (dev : RemoteAccessDevice)
    → core (refresh_row now inventory dev) ≡ core dev
unfolding refresh_row
core-refresh_row now inventory dev =
    if_keeps core (is_changed dev (inventory_status inventory dev))
      (core-with_status now dev (inventory_status inventory dev)) refl

kept-observed :
    (py : Str) (inventory : Inventory) (now : ℕ) (peer : Option Peer) (dev : RemoteAccessDevice)
    → kept (observed py inventory now peer dev) ≡ kept dev
kept-observed py inventory now none dev = refl
kept-observed py inventory now (some peer) dev =
    kept-link_inventory (mapped_links py inventory (py.lower dev.hostname)) dev

pub kept-observe :
    (py : Str) (scan : Scan) (rows : Table) (dev : RemoteAccessDevice)
    → kept (observe py scan rows dev) ≡ kept dev
unfolding observe
kept-observe py scan rows dev =
    kept-observed py scan.inventory scan.now (chosen py scan rows dev) dev

kept-with_online :
    (now : ℕ) (want : Option Bool) (dev : RemoteAccessDevice)
    → kept (with_online now want dev) ≡ kept dev
kept-with_online now want dev = ground arith

kept-unseen :
    (now : ℕ) (at : Option ℕ) (dev : RemoteAccessDevice) → kept (unseen now at dev) ≡ kept dev
kept-unseen now none dev = kept-with_online now none dev
kept-unseen now (some at) dev = refl

pub kept-seen_now :
    (now : ℕ) (want : Option Bool) (dev : RemoteAccessDevice)
    → kept (seen_now now want dev) ≡ kept dev
kept-seen_now now none dev = kept-unseen now dev.last_seen_at dev
kept-seen_now now (some true) dev =
    kept-with_online now (some true) (record dev { last_seen_at = some now })
kept-seen_now now (some false) dev = kept-with_online now (some false) dev

core-closed_by :
    (message : Option String → Option String → String) (now : ℕ) (waiting over : Bool)
    (dev : RemoteAccessDevice)
    → core (closed_by message now waiting over dev) ≡ core dev
core-closed_by message now true over dev = refl
core-closed_by message now false true dev = refl
core-closed_by message now false false dev = refl

core-healed :
    (message : Option String → Option String → String) (now : ℕ) (healthy : Bool)
    (dev : RemoteAccessDevice)
    → core (healed message now healthy dev) ≡ core dev
unfolding healed
core-healed message now healthy dev =
    core-closed_by message now (healthy && is_waiting dev.deploy_state dev.ab_password_pushed)
      (healthy && failure_outlived now dev) dev

pub core-settle :
    (py : Str) (message : Option String → Option String → String) (scan : Scan) (rows : Table)
    (dev : RemoteAccessDevice)
    → core (settle py message scan rows (observe py scan rows dev)) ≡ core dev
core-settle py message scan rows dev =
    let seen = observe py scan rows dev in
    let want = status_of (status py scan rows rows) (text_or seen.rustdesk_id "") in
    core-healed message scan.now (is_healthy_name py scan rows (py.lower seen.hostname))
      (seen_now scan.now want seen)
    ∙ kept→core (seen_now scan.now want seen) dev
        (kept-seen_now scan.now want seen ∙ kept-observe py scan rows dev)
