-- ===== src/Tests/PushTests.antt =====
-- Runs of the push queue of app/domains/remote_access/push_jobs.py.
use infra_scope.Common.{
  ℕ, ◌≤◌, Bool, true, false, Option, none, some, [], ◌∷◌, ◌≡◌, refl, ◌⊎◌, String,
}
use infra_scope.Push.Jobs.{
  PushJob, Device, Queue, JobState, queued, running, find_job, enqueue_push_jobs, enqueue_each,
  is_busy, reap_stale_push_jobs, store_job,
}
use infra_scope.Push.Execute.{WinRm, answered, find_device, execute_push_job, owner, finish_job}
use infra_scope.Push.Single.{active_jobs, are_distinct, is_among}
use infra_scope.Push.Orders.{Step, Reach, one_active_job}
use infra_scope.Push.Outcome.{
  ending, job_of, devices_of, is_returned, state_of, execute_push_job_lem,
  execute_push_job-deploy_state,
}

abbrev till : Device
till = record {
  id = 7;
  hostname = "VNK-KASSA-01";
  os_caption = some "Windows 10 Pro";
  managed = true;
  deploy_profile = "client";
  desired_hidden = true;
  desired_block_outgoing = true;
  desired_unattended = true;
  deploy_state = "configured";
  deploy_detail = none;
  deploy_requested_at = none;
}

abbrev first_job : PushJob
first_job = record {
  id = 0;
  device_id = some 7;
  hostname = "VNK-KASSA-01";
  profile = "client";
  dry_run = false;
  state = queued;
  detail = none;
  requested_by = some "admin";
  started_at = none;
  finished_at = none;
}

abbrev started_job : PushJob
started_job = record first_job { state = running; started_at = some 100 }

abbrev install : String → WinRm
install hostname = answered true "done"

execute_push_job_lem_example :
    let e = execute_push_job (λ t. t) 100 101 160 install install first_job (till ∷ []) in
    (is_returned e ≡ true)
    × ((job_of e).state ≡ ending install install (owner first_job.device_id (till ∷ [])) first_job)
    × ((job_of e).started_at ≡ some 100)
    × ((job_of e).finished_at ≡ some 160)
execute_push_job_lem_example =
    execute_push_job_lem (λ t. t) 100 101 160 install install first_job (till ∷ []) refl refl

execute_push_job-deploy_state_example :
    let before = find_device 7 (till ∷ []) in
    let after =
      find_device 7 (
        devices_of (execute_push_job (λ t. t) 100 101 160 install install first_job (till ∷ []))) in
    (state_of after ≡ state_of before)
    ⊎ ((state_of after ≡ some "pending")
        × (first_job.device_id ≡ some 7)
        × (first_job.dry_run ≡ false))
execute_push_job-deploy_state_example =
    execute_push_job-deploy_state (λ t. t) 100 101 160 install install 7 first_job (till ∷ [])

-- The job is queued, started, reaped after ten minutes, and then ended by its worker.
abbrev short_id : String → String
short_id t = t

abbrev no_xp : Option String → Bool
no_xp caption = false

abbrev ids : ℕ → ℕ
ids n = n

abbrev empty_queue : Queue
empty_queue = record { jobs = []; devices = till ∷ [] }

abbrev reaped_job : PushJob
reaped_job = record started_job {
  state = JobState.failed;
  detail = some "воркер не отчитался за 10 минут (перезапущен или упал)";
  finished_at = some 900;
}

queued-Reach : Reach ids no_xp short_id (first_job ∷ [])
unfolding enqueue_push_jobs enqueue_each is_busy are_distinct is_among
queued-Reach = Reach.step Reach.empty (
    Step.enqueued empty_queue (record empty_queue { jobs = first_job ∷ [] }) (till ∷ []) none false
      (some "admin") (first_job ∷ []) [] refl refl)

reaped-Reach : Reach ids no_xp short_id (reaped_job ∷ [])
unfolding find_job store_job reap_stale_push_jobs
reaped-Reach =
    Reach.step (Reach.step queued-Reach (Step.start 100 first_job refl refl)) (Step.reap 900)

one_active_job_example :
    active_jobs 7
      (store_job (finish_job short_id 950 (answered true "done") reaped_job) (reaped_job ∷ []))
    ≤ 1
unfolding find_job
one_active_job_example =
    one_active_job ids no_xp short_id 7
      (Reach.step reaped-Reach (Step.finish 950 (answered true "done") reaped_job refl))
