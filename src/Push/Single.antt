-- ===== src/Push/Single.antt =====
-- One active job per device, over every order of the operations of
-- app/domains/remote_access/push_jobs.py.
use infra_scope.Common.{
  ℕ, ◌+◌, ◌≤◌, Bool, true, false, not, ◌&&◌, ◌||◌, Option, some, List, [], ◌∷◌, ◌++◌, String, ltb,
  if◌then◌else◌, ◌==◌, nat_eq, string_eq, arith, ◌≡◌, refl,
}
use infra_scope.Push.Jobs.{
  PushJob, Device, is_active, is_for, is_busy, enqueue_each, store_job, find_job,
  reap_stale_push_jobs,
}

-- The number of the jobs of a device that wait or run.
unfoldable pub active_jobs : ℕ → List PushJob → ℕ
active_jobs d [] = 0
active_jobs d (job ∷ jobs) =
    if is_active job.state && is_for d job.device_id
    then 1 + active_jobs d jobs
    else active_jobs d jobs

-- No device of the list comes twice.
unfoldable pub is_among : ℕ → List Device → Bool
is_among d [] = false
is_among d (dev ∷ devices) = (dev.id == d) || is_among d devices

unfoldable pub are_distinct : List Device → Bool
unfolding is_among
are_distinct [] = true
are_distinct (dev ∷ devices) = not (is_among dev.id devices) && are_distinct devices

pub active_jobs-append :
    (d : ℕ) (xs ys : List PushJob) → active_jobs d (xs ++ ys) ≡ active_jobs d xs + active_jobs d ys
unfolding active_jobs
active_jobs-append d [] ys = omega arith
active_jobs-append d (job ∷ xs) ys = ground (arith, active_jobs-append d xs ys)

pub is_busy_lem : (d : ℕ) (jobs : List PushJob) → is_busy d jobs ≡ ltb 0 (active_jobs d jobs)
unfolding active_jobs is_busy
is_busy_lem d [] = refl
is_busy_lem d (job ∷ jobs) = ground (arith, is_busy_lem d jobs)

pub active_jobs-store_job :
    (d : ℕ) (old job : PushJob) (jobs : List PushJob)
    → find_job job.id jobs ≡ some old
    → job.device_id ≡ old.device_id
    → (is_active job.state ≡ true → is_active old.state ≡ true)
    → active_jobs d (store_job job jobs) ≤ active_jobs d jobs
unfolding active_jobs find_job store_job
active_jobs-store_job d old job [] f e a = ground arith
active_jobs-store_job d old job (x ∷ jobs) f e a =
    let ih : find_job job.id jobs ≡ some old
        → active_jobs d (store_job job jobs) ≤ active_jobs d jobs =
      λ g. active_jobs-store_job d old job jobs g e a in
    ground (arith, ih)

pub active_jobs-reap :
    (d now : ℕ) (jobs : List PushJob)
    → active_jobs d (reap_stale_push_jobs now jobs).0 ≤ active_jobs d jobs
unfolding active_jobs reap_stale_push_jobs
active_jobs-reap d now [] = omega arith
active_jobs-reap d now (job ∷ jobs) = ground (arith, active_jobs-reap d now jobs)

module _ (new_id : ℕ → ℕ) (mentions_xp : Option String → Bool) (d : ℕ) (jobs : List PushJob)
    (profile : Option String) (dry_run : Bool) (requested_by : Option String) where
  -- The rows that a request adds.
  abbrev added : ℕ → List Device → List PushJob
  added n devices = (enqueue_each new_id mentions_xp jobs profile dry_run requested_by n devices).0

  added-absent :
      (n : ℕ) (devices : List Device)
      → is_among d devices ≡ false
      → active_jobs d (added n devices) ≡ 0
  unfolding active_jobs enqueue_each is_among
  added-absent n [] f = refl
  added-absent n (dev ∷ devices) f = ground (arith, added-absent (n + 1) devices)

  pub added-busy :
      (n : ℕ) (devices : List Device) → is_busy d jobs ≡ true → active_jobs d (added n devices) ≡ 0
  unfolding active_jobs enqueue_each
  added-busy n [] f = refl
  added-busy n (dev ∷ devices) f =
      ground (arith, added-busy (n + 1) devices f, nat_eq.beq_iff dev.id d)

  pub added-once :
      (n : ℕ) (devices : List Device)
      → are_distinct devices ≡ true
      → active_jobs d (added n devices) ≤ 1
  unfolding active_jobs enqueue_each are_distinct
  added-once n [] f = omega arith
  added-once n (dev ∷ devices) f =
      ground
        (arith, added-once (n + 1) devices, added-absent (n + 1) devices, nat_eq.beq_iff dev.id d)
