-- ===== src/Push/Jobs.antt =====
-- app/domains/remote_access/push_jobs.py: the rows of the queue, and the operations on them. The
-- device rows are those of app/domains/remote_access/models.py with the columns that a push reads
-- or writes; the WinRM call and the texts of `detail` are arguments.
use infra_scope.Common.{
  ℕ, ◌+◌, Bool, true, false, not, ◌&&◌, ◌||◌, Option, none, some, List, [], ◌∷◌, ◌++◌, String, leb,
  if◌then◌else◌, ◌==◌, nat_eq, string_eq,
}

pub data JobState : Type 0 where
  queued running succeeded failed skipped cancelled : JobState

pub record PushJob : Type 0 where
  pub id : ℕ
  pub device_id : Option ℕ
  pub hostname : String
  pub profile : String
  pub dry_run : Bool
  pub state : JobState
  pub detail : Option String
  pub requested_by : Option String
  pub started_at : Option ℕ
  pub finished_at : Option ℕ

pub record Device : Type 0 where
  pub id : ℕ
  pub hostname : String
  pub os_caption : Option String
  pub managed : Bool
  pub deploy_profile : String
  pub desired_hidden : Bool
  pub desired_block_outgoing : Bool
  pub desired_unattended : Bool
  pub deploy_state : String
  pub deploy_detail : Option String
  pub deploy_requested_at : Option ℕ

-- The latest job last.
pub record Queue : Type 0 where
  pub jobs : List PushJob
  pub devices : List Device

-- `job.state in PUSH_JOB_ACTIVE`
abbrev pub is_active : JobState → Bool
is_active queued = true
is_active running = true
is_active succeeded = false
is_active failed = false
is_active skipped = false
is_active cancelled = false

-- The three reasons for which a device is passed over.
pub data SkipReason : Type 0 where
  not_managed windows_xp busy : SkipReason

-- `job.device_id == device_id`; a job whose device was deleted has none.
abbrev pub is_for : ℕ → Option ℕ → Bool
is_for device_id none = false
is_for device_id (some d) = d == device_id

-- `device_id in busy`: the device has a job that waits or runs.
unfoldable pub is_busy : ℕ → List PushJob → Bool
is_busy device_id [] = false
is_busy device_id (job ∷ jobs) =
    (is_active job.state && is_for device_id job.device_id) || is_busy device_id jobs

-- The keys of DEPLOY_PROFILES.
abbrev pub is_profile : String → Bool
is_profile profile = (profile == "client") || (profile == "admin")

abbrev pub is_unknown : Option String → Bool
is_unknown none = false
is_unknown (some profile) = not (is_profile profile)

-- `profile or dev.deploy_profile`
abbrev pub profile_or : Option String → String → String
profile_or none deploy_profile = deploy_profile
profile_or (some profile) deploy_profile = if profile == "" then deploy_profile else profile

module _ (new_id : ℕ → ℕ) (mentions_xp : Option String → Bool) where
  -- `mentions_xp` is the test for the word "xp" in the lowered caption.
  abbrev pub skip_reason : List PushJob → Device → Option SkipReason
  skip_reason jobs dev =
      if not dev.managed
      then some not_managed
      else if mentions_xp dev.os_caption
      then some windows_xp
      else if is_busy dev.id jobs
      then some SkipReason.busy
      else none

  abbrev pub new_job : ℕ → Option String → Bool → Option String → Device → PushJob
  new_job n profile dry_run requested_by dev = record {
    id = new_id n;
    device_id = some dev.id;
    hostname = dev.hostname;
    profile = profile_or profile dev.deploy_profile;
    dry_run = dry_run;
    state = queued;
    detail = none;
    requested_by = requested_by;
    started_at = none;
    finished_at = none;
  }

  -- The loop over the devices; `jobs` are those that were stored before the request.
  unfoldable pub enqueue_each :
      List PushJob
      → Option String
      → Bool
      → Option String
      → ℕ
      → List Device
      → List PushJob × List (String × SkipReason)
  enqueue_each jobs profile dry_run requested_by n [] = ([], [])
  enqueue_each jobs profile dry_run requested_by n (dev ∷ devices) =
      let (added, refused) = enqueue_each jobs profile dry_run requested_by (n + 1) devices in
      elim (skip_reason jobs dev) [
        | some reason ↦ (added, (dev.hostname, reason) ∷ refused)
        | none ↦ (new_job n profile dry_run requested_by dev ∷ added, refused)
      ]

  -- `none` is the `ValueError`.
  unfoldable pub enqueue_push_jobs :
      List Device
      → Option String
      → Bool
      → Option String
      → Queue
      → Option (Queue × List PushJob × List (String × SkipReason))
  unfolding enqueue_each is_busy
  enqueue_push_jobs devices profile dry_run requested_by queue =
      let (added, refused) = enqueue_each queue.jobs profile dry_run requested_by 0 devices in
      if is_unknown profile
      then none
      else some (record queue { jobs = queue.jobs ++ added }, added, refused)

-- `session.get(RemoteAccessPushJob, job_id)`
unfoldable pub find_job : ℕ → List PushJob → Option PushJob
find_job job_id [] = none
find_job job_id (job ∷ jobs) = if job.id == job_id then some job else find_job job_id jobs

-- The row of a stored job with its new values.
unfoldable pub store_job : PushJob → List PushJob → List PushJob
store_job job [] = []
store_job job (old ∷ jobs) = if old.id == job.id then job ∷ jobs else old ∷ store_job job jobs

abbrev pub is_queued : JobState → Bool
is_queued queued = true
is_queued running = false
is_queued succeeded = false
is_queued failed = false
is_queued skipped = false
is_queued cancelled = false

-- `job.state`, `job.detail` and `job.finished_at` as every ending of a job sets them.
abbrev pub close : JobState → Option String → ℕ → PushJob → PushJob
close state detail now job = record job { state = state; detail = detail; finished_at = some now }

unfoldable pub cancel_push_job : ℕ → PushJob → PushJob × Bool
cancel_push_job now job =
    if not (is_queued job.state)
    then (job, false)
    else (close cancelled (some "отменено оператором") now job, true)

-- RUNNING_JOB_TIMEOUT in seconds.
abbrev pub running_job_timeout : ℕ
running_job_timeout = 600

-- The job runs since `now - RUNNING_JOB_TIMEOUT` or earlier.
abbrev pub is_stale : ℕ → JobState → Option ℕ → Bool
is_stale now running (some started) = leb (started + running_job_timeout) now
is_stale now running none = false
is_stale now queued started = false
is_stale now succeeded started = false
is_stale now failed started = false
is_stale now skipped started = false
is_stale now cancelled started = false

-- The rows after the loop, and the number of the reaped ones.
unfoldable pub reap_stale_push_jobs : ℕ → List PushJob → List PushJob × ℕ
reap_stale_push_jobs now [] = ([], 0)
reap_stale_push_jobs now (job ∷ jobs) =
    let (rest, reaped) = reap_stale_push_jobs now jobs in
    if is_stale now job.state job.started_at
    then (
      close failed (some "воркер не отчитался за 10 минут (перезапущен или упал)") now job ∷ rest,
      reaped + 1,
    )
    else (job ∷ rest, reaped)
