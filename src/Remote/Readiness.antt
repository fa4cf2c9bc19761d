-- ===== src/Remote/Readiness.antt =====
-- When `readiness` of app/domains/remote_access/service/devices.py promises a session.
use infra_scope.Common.{ℕ, ◌≡◌, ◌↔◌, Bool, true, false, Option, none, some, arith}
use infra_scope.Remote.Device.{
  RemoteAccessDevice, DeployState, unknown, pending, installed, configured, failed, stale,
}
use infra_scope.Remote.Labels.{readiness, chip_of, ready, deploying, is_stalled, is_false}

-- The states of a rollout in which the console decides.
abbrev pub is_open : DeployState → Bool
is_open configured = true
is_open unknown = true
is_open installed = true
is_open pending = false
is_open failed = false
is_open stale = false

chip_of-ready :
    (now : ℕ) (rollout : DeployState) (online host_online : Option Bool) (requested : Option ℕ)
    → (chip_of now rollout online host_online requested ≡ ready)
      ↔ ((online ≡ some true) × (is_open rollout ≡ true))
chip_of-ready now failed online host_online requested = ground arith
chip_of-ready now stale online host_online requested = ground arith
chip_of-ready now configured none host_online requested = ground arith
chip_of-ready now configured (some true) host_online requested = ground arith
chip_of-ready now configured (some false) host_online requested = ground arith
chip_of-ready now pending online host_online requested = ground arith
chip_of-ready now unknown none host_online requested = ground arith
chip_of-ready now unknown (some true) host_online requested = ground arith
chip_of-ready now unknown (some false) host_online requested = ground arith
chip_of-ready now installed none host_online requested = ground arith
chip_of-ready now installed (some true) host_online requested = ground arith
chip_of-ready now installed (some false) host_online requested = ground arith

chip_of-deploying :
    (now : ℕ) (rollout : DeployState) (online host_online : Option Bool) (requested : Option ℕ)
    → (chip_of now rollout online host_online requested ≡ deploying)
      ↔ ((rollout ≡ pending) × (is_false host_online ≡ false) × (is_stalled now requested ≡ false))
chip_of-deploying now failed online host_online requested = ground arith
chip_of-deploying now stale online host_online requested = ground arith
chip_of-deploying now configured none host_online requested = ground arith
chip_of-deploying now configured (some true) host_online requested = ground arith
chip_of-deploying now configured (some false) host_online requested = ground arith
chip_of-deploying now unknown none host_online requested = ground arith
chip_of-deploying now unknown (some true) host_online requested = ground arith
chip_of-deploying now unknown (some false) host_online requested = ground arith
chip_of-deploying now installed none host_online requested = ground arith
chip_of-deploying now installed (some true) host_online requested = ground arith
chip_of-deploying now installed (some false) host_online requested = ground arith
chip_of-deploying now pending online host_online requested = ground arith

-- A device is `ready` exactly when the console sees its client and its rollout is configured,
-- installed or never reported; it is `deploying` exactly when its rollout is pending, its host is
-- not known to be off, and the request is not older than 24 hours (or has no time).
pub readiness-ready_deploying :
    (now : ℕ) (dev : RemoteAccessDevice)
    → ((readiness now dev ≡ ready) ↔ ((dev.online ≡ some true) × (is_open dev.deploy_state ≡ true)))
      × ((readiness now dev ≡ deploying) ↔ (
          (dev.deploy_state ≡ pending)
          × (is_false dev.host_online ≡ false)
          × (is_stalled now dev.deploy_requested_at ≡ false)))
unfolding readiness
readiness-ready_deploying now dev = (
  chip_of-ready now dev.deploy_state dev.online dev.host_online dev.deploy_requested_at,
  chip_of-deploying now dev.deploy_state dev.online dev.host_online dev.deploy_requested_at,
)
