-- ===== src/Push/Outcome.antt =====
-- What one execution of a push job does to the job and to the device.
use infra_scope.Common.{
  ℕ, Bool, true, false, not, ◌&&◌, Option, none, some, List, [], ◌∷◌, String, if◌then◌else◌, ◌==◌,
  ==_sound, nat_eq, string_eq, arith, ◌≡◌, refl, sym, ap, ◌∙◌, Bool-cases, ◌⊎◌, inl, inr,
}
use infra_scope.Push.Jobs.{
  JobState, running, succeeded, failed, skipped, PushJob, Device, is_queued, is_profile,
}
use infra_scope.Push.Execute.{
  find_device, store_device, WinRm, answered, not_configured, Execution, returned, raised,
  finish_job, owner, push, push_from, apply_deploy_profile, mark_deploy_requested, execute_push_job,
}

-- The answer of a job's call: none where nothing is called.
abbrev called : (String → WinRm) → (String → WinRm) → PushJob → WinRm
called probe run job = if job.dry_run then probe job.hostname else run job.hostname

abbrev succeeds : WinRm → Bool
succeeds (not_configured text) = false
succeeds (answered ok detail) = ok

-- The deploy state that a device has in a list, none for a device that is not there.
abbrev pub state_of : Option Device → Option String
state_of none = none
state_of (some dev) = some dev.deploy_state

abbrev is_managed : Option Device → Bool
is_managed none = false
is_managed (some dev) = dev.managed

abbrev is_pushed : Option Device → PushJob → Bool
is_pushed none job = false
is_pushed (some dev) job = dev.managed && not job.dry_run

-- What a job ends as: a device that is gone or no longer managed is skipped, else the answer counts.
abbrev pub ending : (String → WinRm) → (String → WinRm) → Option Device → PushJob → JobState
ending probe run dev job =
    if not (is_managed dev)
    then skipped
    else if succeeds (called probe run job)
    then succeeded
    else failed

abbrev pub devices_of : Execution → List Device
devices_of (returned job devices) = devices
devices_of (raised job devices) = devices

find_device-id :
    (d : ℕ) (devices : List Device) (dev : Device) → find_device d devices ≡ some dev → dev.id ≡ d
unfolding find_device
find_device-id d [] dev f = ground arith
find_device-id d (x ∷ xs) dev f = ground (arith, find_device-id d xs dev, nat_eq.beq_iff x.id d)

find_device-ne :
    (d : ℕ) (dev : Device) (devices : List Device)
    → (dev.id == d) ≡ false
    → find_device d (store_device dev devices) ≡ find_device d devices
unfolding find_device store_device
find_device-ne d dev [] n = refl
find_device-ne d dev (x ∷ xs) n = ground (
  arith,
  find_device-ne d dev xs n,
  nat_eq.beq_iff x.id d,
  nat_eq.beq_iff x.id dev.id,
  nat_eq.beq_iff dev.id d,
)

find_device_self :
    (d : ℕ) (old dev : Device) (devices : List Device)
    → find_device d devices ≡ some old
    → dev.id ≡ d
    → find_device d (store_device dev devices) ≡ some dev
unfolding find_device store_device
find_device_self d old dev [] f e = ground arith
find_device_self d old dev (x ∷ xs) f e = ground (
  arith,
  find_device_self d old dev xs,
  nat_eq.beq_iff x.id d,
  nat_eq.beq_iff x.id dev.id,
  nat_eq.beq_iff dev.id d,
)

finish_job-state :
    (short : String → String) (now : ℕ) (answer : WinRm) (job : PushJob)
    → (finish_job short now answer job).state ≡ (if succeeds answer then succeeded else failed)
unfolding finish_job
finish_job-state short now (not_configured text) job = refl
finish_job-state short now (answered ok detail) job = refl

finish_job-times :
    (short : String → String) (now : ℕ) (answer : WinRm) (job : PushJob)
    → ((finish_job short now answer job).started_at ≡ job.started_at)
      × ((finish_job short now answer job).finished_at ≡ some now)
unfolding finish_job
finish_job-times short now (not_configured text) job = (refl, refl)
finish_job-times short now (answered ok detail) job = (refl, refl)

abbrev pub job_of : Execution → PushJob
job_of (returned job devices) = job
job_of (raised job devices) = job

abbrev pub is_returned : Execution → Bool
is_returned (returned job devices) = true
is_returned (raised job devices) = false

module _ (short : String → String) (started requested finished : ℕ)
    (probe run : String → WinRm) where
  push-ends :
      (job : PushJob) (devices : List Device) (dev : Option Device)
      → is_profile job.profile ≡ true
      → let e = push short started requested finished probe run job devices dev in
        (is_returned e ≡ true)
        × ((job_of e).state ≡ ending probe run dev job)
        × ((job_of e).started_at ≡ job.started_at)
        × ((job_of e).finished_at ≡ some finished)
  unfolding apply_deploy_profile
  push-ends job devices none p = ground arith
  push-ends job devices (some dev) p = ground (
    arith,
    p,
    finish_job-state short finished (probe job.hostname) job,
    finish_job-state short finished (run job.hostname) job,
    finish_job-times short finished (probe job.hostname) job,
    finish_job-times short finished (run job.hostname) job,
  )

  apply_deploy_profile-id :
      (dev dev' : Device) (profile : String)
      → apply_deploy_profile dev profile ≡ some dev'
      → dev'.id ≡ dev.id
  unfolding apply_deploy_profile
  apply_deploy_profile-id dev dev' profile e = ground arith

  owner-id :
      (o : Option ℕ) (devices : List Device) (dev : Device)
      → owner o devices ≡ some dev
      → (o ≡ some dev.id) × (find_device dev.id devices ≡ some dev)
  owner-id none devices dev e = ground arith
  owner-id (some d) devices dev e =
      let i = find_device-id d devices dev e in
      (ap some (sym i), ap (λ n. find_device n devices) i ∙ e)

  pushed_here :
      (d : ℕ) (job : PushJob) (devices : List Device) (dev dev' : Device)
      → dev'.id ≡ dev.id
      → dev.id ≡ d
      → find_device dev.id devices ≡ some dev
      → job.device_id ≡ some dev.id
      → (state_of (find_device d (store_device (mark_deploy_requested requested dev') devices))
          ≡ some "pending")
        × (job.device_id ≡ some d)
  unfolding mark_deploy_requested
  pushed_here d job devices dev dev' same here there named = (
    ap state_of (
        find_device_self d dev (mark_deploy_requested requested dev') devices
          (ap (λ n. find_device n devices) (sym here) ∙ there) (same ∙ here)),
    named ∙ ap some here,
  )

  push_from-deploy_state :
      (d : ℕ) (job : PushJob) (devices : List Device) (dev : Device) (r : Option Device)
      → owner job.device_id devices ≡ some dev
      → apply_deploy_profile dev job.profile ≡ r
      → let dev' =
          find_device d
            (devices_of (push_from short started requested finished probe run job dev devices r)) in
        (dev' ≡ find_device d devices)
        ⊎ ((state_of dev' ≡ some "pending") × (job.device_id ≡ some d))
  unfolding mark_deploy_requested
  push_from-deploy_state d job devices dev none o e = inl refl
  push_from-deploy_state d job devices dev (some dev') o e =
      let (named, there) = owner-id job.device_id devices dev o in
      let same = apply_deploy_profile-id dev dev' job.profile e in
      elim (Bool-cases (dev.id == d)) [
        | inl t ↦ inr (pushed_here d job devices dev dev' same (==_sound dev.id d t) there named)
        | inr n ↦ inl (
            find_device-ne d (mark_deploy_requested requested dev') devices
              (ap (λ i. i == d) same ∙ n))
      ]

  push-deploy_state :
      (d : ℕ) (job : PushJob) (devices : List Device) (dev : Option Device)
      → owner job.device_id devices ≡ dev
      → let dev' =
          find_device d
            (devices_of (push short started requested finished probe run job devices dev)) in
        (dev' ≡ find_device d devices)
        ⊎ ((state_of dev' ≡ some "pending") × (job.device_id ≡ some d) × (is_pushed dev job ≡ true))
  unfolding apply_deploy_profile mark_deploy_requested
  push-deploy_state d job devices none o = inl refl
  push-deploy_state d job devices (some dev) o = ground (
    arith,
    push_from-deploy_state d job devices dev (apply_deploy_profile dev job.profile) o refl,
  )

  -- A queued job of a known profile that is executed is over: it was started at the first reading
  -- of the clock and finished at the last, and it is skipped if its device is gone or no longer
  -- managed, succeeded if the call of WinRM, a probe for a dry run, ended well, and failed
  -- otherwise.
  pub execute_push_job_lem :
      (job : PushJob) (devices : List Device)
      → is_queued job.state ≡ true
      → is_profile job.profile ≡ true
      → let e = execute_push_job short started requested finished probe run job devices in
        (is_returned e ≡ true)
        × ((job_of e).state ≡ ending probe run (owner job.device_id devices) job)
        × ((job_of e).started_at ≡ some started)
        × ((job_of e).finished_at ≡ some finished)
  unfolding execute_push_job
  execute_push_job_lem job devices q p =
      let running_job = record job { state = running; started_at = some started } in
      ground (arith, q, push-ends running_job devices (owner job.device_id devices) p)

  -- Whatever a job finds and WinRM answers, its execution leaves the deploy state of every device
  -- as it is or, for the device of a job that is no dry run, makes it "pending".
  pub execute_push_job-deploy_state :
      (d : ℕ) (job : PushJob) (devices : List Device)
      → let before = find_device d devices in
        let after =
          find_device d (
            devices_of (execute_push_job short started requested finished probe run job devices)) in
        (state_of after ≡ state_of before)
        ⊎ ((state_of after ≡ some "pending") × (job.device_id ≡ some d) × (job.dry_run ≡ false))
  unfolding execute_push_job
  execute_push_job-deploy_state d job devices =
      let running_job = record job { state = running; started_at = some started } in
      ground (arith, push-deploy_state d running_job devices (owner job.device_id devices) refl)
