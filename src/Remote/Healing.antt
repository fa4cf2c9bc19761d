-- ===== src/Remote/Healing.antt =====
-- What sync_from_console of app/domains/remote_access/service/console.py makes of the state of a
-- rollout.
use infra_scope.Common.{
  ℕ, ◌≡◌, refl, sym, ap, ◌∙◌, Bool, true, false, ◌&&◌, Option, none, some, [], ◌∷◌, String, ◌==◌,
  string_eq, arith, any, Both, Both-map, Bool-cases, inl, inr, ◌⊎◌, ==_sound,
}
use infra_scope.Remote.Device.{
  Str, RemoteAccessDevice, DeployState, unknown, pending, installed, configured, failed, stale,
  text_or,
}
use infra_scope.Remote.Rows.{Table}
use infra_scope.Remote.Console.{
  Peer, peer_online, peer_rid, is_canonical, is_healthy, failure_outlived, is_failed, outlived,
}
use infra_scope.Remote.Sync.{
  Scan, chosen, observe, settle, status, status_of, is_healthy_name, healed, is_waiting, closed_by,
  seen_now, sync_from_console,
}
use infra_scope.Remote.Kept.{kept, kept-observe, kept-seen_now}

-- A row of the table has this name, and the peer that stands for it runs under the id that is made
-- of the hostname and was seen within the window.
abbrev pub IsSeen : Str → Scan → Table → String → Type 0
IsSeen py scan rows key =
    (dev : RemoteAccessDevice) × (peer : Peer) × (py.lower dev.hostname ≡ key)
    × (chosen py scan rows dev ≡ some peer)
    × (is_canonical py dev (peer_rid py peer) ≡ true)
    × (peer_online scan.window scan.now peer ≡ true)

-- The rollouts that a healthy client may close: one that was asked for, one that is stale with the
-- new password in the book, and a failure that is an hour old.
abbrev pub IsClosable : ℕ → RemoteAccessDevice → Type 0
IsClosable now dev =
    (dev.deploy_state ≡ pending)
    ⊎ (dev.deploy_state ≡ stale) × (dev.ab_password_pushed ≡ true)
    ⊎ (failure_outlived now dev ≡ true)

-- A row before and after: the state stays, or it becomes `configured` for a reason.
abbrev pub IsSettled : Str → Scan → Table → RemoteAccessDevice → RemoteAccessDevice → Type 0
IsSettled py scan rows dev dev' =
    (dev'.deploy_state ≡ dev.deploy_state)
    ⊎ (dev'.deploy_state ≡ configured)
      × (dev'.deploy_reported_at ≡ some scan.now)
      × IsClosable scan.now dev
      × IsSeen py scan rows (py.lower dev.hostname)

is_healthy-IsSeen :
    (py : Str) (scan : Scan) (rows : Table) (dev : RemoteAccessDevice) (key : String)
    (peer : Option Peer)
    → chosen py scan rows dev ≡ peer
    → (is_healthy py scan.window scan.now dev peer && (py.lower dev.hostname == key)) ≡ true
    → IsSeen py scan rows key
is_healthy-IsSeen py scan rows dev key none e h = ground arith
is_healthy-IsSeen py scan rows dev key (some peer) e h =
    (dev, peer, ==_sound (py.lower dev.hostname) key (ground arith), e, ground arith, ground arith)

any-IsSeen :
    (py : Str) (scan : Scan) (rows devs : Table) (key : String)
    → any
        (λ dev.
          is_healthy py scan.window scan.now dev (chosen py scan rows dev)
          && (py.lower dev.hostname == key))
        devs
      ≡ true
    → IsSeen py scan rows key
any-IsSeen py scan rows [] key h = ground arith
any-IsSeen py scan rows (dev ∷ devs) key h =
    elim (Bool-cases (
      is_healthy py scan.window scan.now dev (chosen py scan rows dev)
      && (py.lower dev.hostname == key))) [
        | inl here ↦ is_healthy-IsSeen py scan rows dev key (chosen py scan rows dev) refl here
        | inr other ↦ any-IsSeen py scan rows devs key (ground arith)
      ]

is_waiting-IsClosable :
    (now : ℕ) (dev : RemoteAccessDevice) (state : DeployState)
    → dev.deploy_state ≡ state
    → is_waiting state dev.ab_password_pushed ≡ true
    → IsClosable now dev
is_waiting-IsClosable now dev pending e h = inl e
is_waiting-IsClosable now dev stale e h = inr (inl (e, h))
is_waiting-IsClosable now dev unknown e h = ground arith
is_waiting-IsClosable now dev installed e h = ground arith
is_waiting-IsClosable now dev configured e h = ground arith
is_waiting-IsClosable now dev failed e h = ground arith

-- A row that `closed_by` makes, with what its two tests rest on.
closed_by-cases :
    (message : Option String → Option String → String) (now : ℕ) (healthy waiting over : Bool)
    (dev : RemoteAccessDevice)
    → (healthy && is_waiting dev.deploy_state dev.ab_password_pushed) ≡ waiting
    → (healthy && failure_outlived now dev) ≡ over
    → ((closed_by message now waiting over dev).deploy_state ≡ dev.deploy_state)
      ⊎ ((closed_by message now waiting over dev).deploy_state ≡ configured)
        × ((closed_by message now waiting over dev).deploy_reported_at ≡ some now)
        × IsClosable now dev
        × (healthy ≡ true)
closed_by-cases message now healthy false false dev w o = inl refl
closed_by-cases message now healthy true over dev w o =
    inr
      (refl, refl, is_waiting-IsClosable now dev dev.deploy_state refl (ground arith), ground arith)
closed_by-cases message now healthy false true dev w o =
    inr (refl, refl, inr (inr (ground arith)), ground arith)

IsClosable-kept :
    (now : ℕ) (dev dev' : RemoteAccessDevice)
    → kept dev' ≡ kept dev
    → IsClosable now dev'
    → IsClosable now dev
unfolding failure_outlived
IsClosable-kept now dev dev' e (inl h) = inl (sym (ap (λ k. k.3) e) ∙ h)
IsClosable-kept now dev dev' e (inr (inl (h, p))) =
    inr (inl (sym (ap (λ k. k.3) e) ∙ h, sym (ap (λ k. k.5) e) ∙ p))
IsClosable-kept now dev dev' e (inr (inr h)) =
    inr (inr (sym (ap (λ k. is_failed k.3 && outlived now k.4) e) ∙ h))

settle-IsSettled :
    (py : Str) (message : Option String → Option String → String) (scan : Scan) (rows : Table)
    (dev : RemoteAccessDevice)
    → IsSettled py scan rows dev (settle py message scan rows (observe py scan rows dev))
unfolding is_healthy_name healed
settle-IsSettled py message scan rows dev =
    let seen = observe py scan rows dev in
    let want = status_of (status py scan rows rows) (text_or seen.rustdesk_id "") in
    let now_seen = seen_now scan.now want seen in
    let healthy = is_healthy_name py scan rows (py.lower seen.hostname) in
    let same : kept now_seen ≡ kept dev =
      kept-seen_now scan.now want seen ∙ kept-observe py scan rows dev in
    elim (closed_by-cases message scan.now healthy
      (healthy && is_waiting now_seen.deploy_state now_seen.ab_password_pushed)
      (healthy && failure_outlived scan.now now_seen) now_seen refl refl) [
        | inl e ↦ inl (e ∙ ap (λ k. k.3) same)
        | inr (e, at, c, h) ↦ inr (
          e,
          at,
          IsClosable-kept scan.now dev now_seen same c,
          any-IsSeen py scan rows rows (py.lower dev.hostname) (
              ap (λ k. is_healthy_name py scan rows (py.lower k.1))
                (sym (kept-observe py scan rows dev))
              ∙ h),
        )
      ]

-- A sync with the console makes and drops no row. A row keeps the state of its rollout, or becomes
-- `configured` with the time of the sync as its report; then the rollout was pending, or stale with
-- the new password in the book, or failed with no report of the last hour, and the peer that stands
-- for a row with this name runs under the id made of the hostname and was seen within the window.
pub sync_from_console-IsSettled :
    (py : Str) (message : Option String → Option String → String) (scan : Scan) (rows : Table)
    → Both (IsSettled py scan rows) rows (sync_from_console py message scan rows).0
unfolding sync_from_console
sync_from_console-IsSettled py message scan rows =
    Both-map (IsSettled py scan rows)
      (λ dev. settle py message scan rows (observe py scan rows dev))
      (settle-IsSettled py message scan rows) rows
