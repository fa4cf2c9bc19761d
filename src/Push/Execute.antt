-- ===== src/Push/Execute.antt =====
-- `execute_push_job` of app/domains/remote_access/push_jobs.py, with what it does to the device:
-- `apply_deploy_profile` and `mark_config_stale` of service/devices.py, `mark_deploy_requested` of
-- service/deployment.py. The answer of WinRM (winrm_exec.py) is an argument, and so are
-- the readings of the clock: at the start, at the request of a rollout, and when the job ends.
use infra_scope.Common.{
  ℕ, Bool, true, false, not, ◌||◌, Option, none, some, List, [], ◌∷◌, String, if◌then◌else◌, ◌==◌,
  nat_eq, string_eq,
}
use infra_scope.Push.Jobs.{
  running, succeeded, failed, skipped, PushJob, Device, is_queued, is_profile, close,
}

unfoldable pub find_device : ℕ → List Device → Option Device
find_device device_id [] = none
find_device device_id (dev ∷ devices) =
    if dev.id == device_id then some dev else find_device device_id devices

unfoldable pub store_device : Device → List Device → List Device
store_device dev [] = []
store_device dev (old ∷ devices) =
    if old.id == dev.id then dev ∷ devices else old ∷ store_device dev devices

abbrev pub mark_config_stale : Device → Device
mark_config_stale dev =
    if dev.deploy_state == "configured"
    then record dev { deploy_state = "stale"; deploy_detail = none }
    else dev

-- The value that the preset of a profile gives to each of the three flags.
abbrev pub preset : String → Bool
preset profile = profile == "client"

abbrev pub differs : Bool → Bool → Bool
differs true b = not b
differs false b = b

abbrev pub with_profile : String → Device → Device
with_profile profile dev = record dev {
  deploy_profile = profile;
  desired_hidden = preset profile;
  desired_block_outgoing = preset profile;
  desired_unattended = preset profile;
}

-- `none` is the `ValueError` of a profile that is not known.
unfoldable pub apply_deploy_profile : Device → String → Option Device
apply_deploy_profile dev profile =
    let changed =
      not (dev.deploy_profile == profile)
      || (differs dev.desired_hidden (preset profile)
          || (differs dev.desired_block_outgoing (preset profile)
              || differs dev.desired_unattended (preset profile))) in
    if not (is_profile profile)
    then none
    else if changed
    then some (mark_config_stale (with_profile profile dev))
    else some (with_profile profile dev)

unfoldable pub mark_deploy_requested : ℕ → Device → Device
mark_deploy_requested now dev = record dev {
  deploy_state = "pending";
  deploy_detail = none;
  deploy_requested_at = some now;
}

-- `WinRMNotConfiguredError` with its text, or `ok` and `detail` of the `WinRMResult`.
pub data WinRm : Type 0 where
  not_configured : String → WinRm
  answered : Bool → String → WinRm

-- The row of the job and the devices when the call is over. The `ValueError` of
-- `apply_deploy_profile` is not caught.
pub data Execution : Type 0 where
  returned raised : PushJob → List Device → Execution

-- `result.detail[:1024] if result.detail else None`
abbrev pub detail_of : (String → String) → String → Option String
detail_of short detail = if detail == "" then none else some (short detail)

-- The end of the job, from what WinRM answered.
unfoldable pub finish_job : (String → String) → ℕ → WinRm → PushJob → PushJob
finish_job short now (not_configured text) job = close failed (some text) now job
finish_job short now (answered ok detail) job =
    close (if ok then succeeded else failed) (detail_of short detail) now job

abbrev pub owner : Option ℕ → List Device → Option Device
owner none devices = none
owner (some device_id) devices = find_device device_id devices

-- `short` cuts a text to 1024 characters; `probe` and `run` are the two calls of WinRM.
module _ (short : String → String) (started requested finished : ℕ)
    (probe run : String → WinRm) where
  -- A live push to a device that is managed.
  abbrev pub push_from : PushJob → Device → List Device → Option Device → Execution
  push_from job dev devices none = raised job devices
  push_from job dev devices (some dev') =
      returned (finish_job short finished (run job.hostname) job)
        (store_device (mark_deploy_requested requested dev') devices)

  -- The call of a job that is running, with the device it is for.
  abbrev pub push : PushJob → List Device → Option Device → Execution
  push job devices none =
      returned (close skipped (some "машина больше не в управлении") finished job) devices
  push job devices (some dev) =
      if not dev.managed
      then returned (close skipped (some "машина больше не в управлении") finished job) devices
      else if job.dry_run
      then returned (finish_job short finished (probe job.hostname) job) devices
      else push_from job dev devices (apply_deploy_profile dev job.profile)

  unfoldable pub execute_push_job : PushJob → List Device → Execution
  unfolding find_device finish_job apply_deploy_profile mark_deploy_requested store_device
  execute_push_job job devices =
      if not (is_queued job.state)
      then returned job devices
      else push (record job { state = running; started_at = some started }) devices
          (owner job.device_id devices)
