-- ===== src/Push/Orders.antt =====
-- The commits of app/domains/remote_access/push_jobs.py in any order, by the web requests, the
-- reaper and the workers.
use infra_scope.Common.{
  ℕ, ◌≤◌, Bool, true, false, Option, some, List, [], String, nat_eq, string_eq, arith, ◌≡◌, ap, ◌∙◌,
}
use infra_scope.Push.Jobs.{
  PushJob, Device, Queue, SkipReason, is_active, is_queued, running, skipped, find_job, store_job,
  close, enqueue_each, enqueue_push_jobs, cancel_push_job, reap_stale_push_jobs,
}
use infra_scope.Push.Execute.{WinRm, finish_job}
use infra_scope.Push.Single.{
  active_jobs, are_distinct, is_busy_lem, active_jobs-append, active_jobs-store_job,
  active_jobs-reap, added-busy, added-once,
}

module _ (new_id : ℕ → ℕ) (mentions_xp : Option String → Bool) (short : String → String) where
  -- One commit. A worker works on the row that it has started, whatever became of it meanwhile.
  pub data Step : List PushJob → List PushJob → Type 0 where
    enqueued :
        (queue queue' : Queue) (devices : List Device) (profile : Option String) (dry_run : Bool)
        (requested_by : Option String) (added : List PushJob) (refused : List (String × SkipReason))
        → are_distinct devices ≡ true
        → enqueue_push_jobs new_id mentions_xp devices profile dry_run requested_by queue
          ≡ some (queue', added, refused)
        → Step queue.jobs queue'.jobs
    cancel :
        {jobs : List PushJob} (now : ℕ) (job : PushJob)
        → find_job job.id jobs ≡ some job
        → Step jobs (store_job (cancel_push_job now job).0 jobs)
    reap : {jobs : List PushJob} (now : ℕ) → Step jobs (reap_stale_push_jobs now jobs).0
    start :
        {jobs : List PushJob} (now : ℕ) (job : PushJob)
        → find_job job.id jobs ≡ some job
        → is_queued job.state ≡ true
        → Step jobs (store_job (record job { state = running; started_at = some now }) jobs)
    skip :
        {jobs : List PushJob} (now : ℕ) (detail : Option String) (job : PushJob)
        → find_job job.id jobs ≡ some job
        → Step jobs (store_job (close skipped detail now job) jobs)
    finish :
        {jobs : List PushJob} (now : ℕ) (answer : WinRm) (job : PushJob)
        → find_job job.id jobs ≡ some job
        → Step jobs (store_job (finish_job short now answer job) jobs)

  pub data Reach : List PushJob → Type 0 where
    empty : Reach []
    step : {jobs jobs' : List PushJob} → Reach jobs → Step jobs jobs' → Reach jobs'

  active_jobs-enqueue :
      (d : ℕ) (queue queue' : Queue) (devices : List Device) (profile : Option String)
      (dry_run : Bool) (requested_by : Option String) (added : List PushJob)
      (refused : List (String × SkipReason))
      → are_distinct devices ≡ true
      → enqueue_push_jobs new_id mentions_xp devices profile dry_run requested_by queue
        ≡ some (queue', added, refused)
      → active_jobs d queue.jobs ≤ 1
      → active_jobs d queue'.jobs ≤ 1
  unfolding enqueue_push_jobs
  active_jobs-enqueue d queue queue' devices profile dry_run requested_by added refused f e b =
      let now =
        (enqueue_each new_id mentions_xp queue.jobs profile dry_run requested_by 0 devices).0 in
      ground (
        arith,
        is_busy_lem d queue.jobs,
        active_jobs-append d queue.jobs now,
        added-busy new_id mentions_xp d queue.jobs profile dry_run requested_by 0 devices,
        added-once new_id mentions_xp d queue.jobs profile dry_run requested_by 0 devices f,
      )

  cancel_push_job-kept :
      (now : ℕ) (job : PushJob)
      → let job' = (cancel_push_job now job).0 in
        (job'.id ≡ job.id)
        × (job'.device_id ≡ job.device_id)
        × (is_active job'.state ≡ true → is_active job.state ≡ true)
  unfolding cancel_push_job
  cancel_push_job-kept now job = ground arith

  finish_job-kept :
      (now : ℕ) (answer : WinRm) (job : PushJob)
      → let job' = finish_job short now answer job in
        (job'.id ≡ job.id)
        × (job'.device_id ≡ job.device_id)
        × (is_active job'.state ≡ true → is_active job.state ≡ true)
  unfolding finish_job
  finish_job-kept now (WinRm.not_configured text) job = ground arith
  finish_job-kept now (WinRm.answered true detail) job = ground arith
  finish_job-kept now (WinRm.answered false detail) job = ground arith

  active_jobs-kept :
      (d : ℕ) (jobs : List PushJob) (old job : PushJob)
      → find_job old.id jobs ≡ some old
      → (job.id ≡ old.id)
        × (job.device_id ≡ old.device_id)
        × (is_active job.state ≡ true → is_active old.state ≡ true)
      → active_jobs d jobs ≤ 1
      → active_jobs d (store_job job jobs) ≤ 1
  active_jobs-kept d jobs old job f (i, e, a) b =
      omega (arith, active_jobs-store_job d old job jobs (ap (λ n. find_job n jobs) i ∙ f) e a)

  active_jobs-step :
      {jobs jobs' : List PushJob} (d : ℕ)
      → Step jobs jobs'
      → active_jobs d jobs ≤ 1
      → active_jobs d jobs' ≤ 1
  active_jobs-step d (enqueued queue queue' devices profile dry_run requested_by added refused f e)
        b =
      active_jobs-enqueue d queue queue' devices profile dry_run requested_by added refused f e b
  active_jobs-step d (cancel {jobs} now job f) b =
      active_jobs-kept d jobs job (cancel_push_job now job).0 f (cancel_push_job-kept now job) b
  active_jobs-step d (reap {jobs} now) b = omega (arith, active_jobs-reap d now jobs)
  active_jobs-step d (start {jobs} now job f q) b =
      active_jobs-kept d jobs job (record job { state = running; started_at = some now }) f
        (ground arith) b
  active_jobs-step d (skip {jobs} now detail job f) b =
      active_jobs-kept d jobs job (close skipped detail now job) f (ground arith) b
  active_jobs-step d (finish {jobs} now answer job f) b =
      active_jobs-kept d jobs job (finish_job short now answer job) f
        (finish_job-kept now answer job) b

  -- No order of push requests, cancellations, reaping and workers, a worker that ends after its
  -- job was reaped included, gives a device two jobs that wait or run, as long as no request names
  -- a device twice.
  pub one_active_job : {jobs : List PushJob} (d : ℕ) → Reach jobs → active_jobs d jobs ≤ 1
  unfolding active_jobs
  one_active_job d empty = omega arith
  one_active_job d (step r s) = active_jobs-step d s (one_active_job d r)
