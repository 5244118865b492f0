-- ===== src/Backend/Stale/Ends.antt =====
-- What a restart leaves of a run whose jobs it ends, and what the other clean-ups make of it.
use rise_sun.Common.{ℕ, List, [], ◌∷◌, Bool, true, false, some, ◌≡◌, refl}
use rise_sun.Common.{Bool-cases, inl, inr, arith}
use rise_sun.Common.{◌-◌, ◌∙◌}
use rise_sun.Backend.Outcomes.{requeued}
use rise_sun.Backend.Consistency.{and_left, finalize_runs-jobs}
use rise_sun.Backend.Stale.Idle.{
  neither, IsIdleRun, IsOpen, update-IsIdleRun, open_elsewhere, finalize_runs-elsewhere,
}
use rise_sun.Backend.Calls.{Env}
use rise_sun.Backend.Stale.{
  is_expired, expired_error, expire_rows, expire_stale_queued_jobs_for_new_day, is_overdue,
  requeue_stale_running_jobs,
}
use rise_sun.Backend.Jobs.{
  Job, JobStatus, queued, running, succeeded, failed, is_queued, is_running, is_outstanding,
  whole_error,
}
use rise_sun.Backend.Db.{Db, ScheduledJobRun, get_run}
use rise_sun.Backend.Tables.{any, update_rows, where_rows}
use rise_sun.Backend.Outcomes.{failed_with}
use rise_sun.Backend.Finalizers.{
  siblings_of, is_key, run_is_running, maybe_finalize_scheduled_job_run,
}
use rise_sun.Backend.Finalizers.Runs.{maybe_finalize_scheduled_job_run_closes, Closed}
use rise_sun.Backend.Stale.{reap_stale_running_jobs}

-- A job that does not wait, and is not left running, has ended.
reaped_row :
    (s : JobStatus)
    → elim s [ queued ↦ true | _ ↦ false ] ≡ false
    → elim s [ running ↦ true | _ ↦ false ] ≡ false
    → elim s [ queued ↦ true | running ↦ true | _ ↦ false ] ≡ false
reaped_row queued h k = ground arith
reaped_row running h k = ground arith
reaped_row succeeded h k = refl
reaped_row failed h k = refl

abbrev reaped : ℕ → Job → Job
reaped = failed_with (whole_error "WORKER_RESTARTED")

reaped_siblings :
    (now run_id : ℕ) (jobs : List Job)
    → any is_queued (where_rows (λ j. is_key run_id j.scheduled_job_run_id) jobs) ≡ false
    → any is_outstanding (
        where_rows
          (λ j. is_key run_id j.scheduled_job_run_id)
          (update_rows is_running (reaped now) jobs))
      ≡ false
unfolding where_rows update_rows any
reaped_siblings now run_id [] e = refl
reaped_siblings now run_id (j ∷ js) e = elim (Bool-cases (is_key run_id j.scheduled_job_run_id)) [
  | inl k ↦ elim (Bool-cases (is_running j)) [
    | inl r ↦ rw (r, k) (reaped_siblings now run_id js (neither (is_queued j) _ (rw k at e)).1)
    | inr r ↦
        rw (r, k, reaped_row j.status (neither (is_queued j) _ (rw k at e)).0 r)
          (reaped_siblings now run_id js (neither (is_queued j) _ (rw k at e)).1)
  ]
  | inr k ↦ elim (Bool-cases (is_running j)) [
    | inl r ↦ rw (r, k) (reaped_siblings now run_id js (rw k at e))
    | inr r ↦ rw (r, k) (reaped_siblings now run_id js (rw k at e))
  ]
]

-- The clean-ups of the worker, in any order and at any times.
pub data CleanUps (env : Env) (start : Db) : Db → Type 0 where
  no_more : CleanUps env start start
  reaps :
      (now : ℕ) (db : Db)
      → CleanUps env start db
      → CleanUps env start (reap_stale_running_jobs now db).1
  requeues :
      (now older_than : ℕ) (db : Db)
      → CleanUps env start db
      → CleanUps env start (requeue_stale_running_jobs now older_than db).1
  expires :
      (now : ℕ) (db : Db)
      → CleanUps env start db
      → CleanUps env start (expire_stale_queued_jobs_for_new_day env now db).1

-- The run is as it was, and its jobs have ended.
record Stranded (run_id : ℕ) (run : ScheduledJobRun) (db : Db) : Type 0 where
  idle : IsIdleRun run_id db.jobs
  row : get_run db run_id ≡ some run

open_status :
    (s : JobStatus)
    → elim s [ queued ↦ true | _ ↦ false ] ≡ true
    → elim s [ queued ↦ true | running ↦ true | _ ↦ false ] ≡ true
open_status queued e = refl
open_status running e = refl
open_status succeeded e = ground arith
open_status failed e = ground arith

running_status :
    (s : JobStatus)
    → elim s [ running ↦ true | _ ↦ false ] ≡ true
    → elim s [ queued ↦ true | running ↦ true | _ ↦ false ] ≡ true
running_status queued e = refl
running_status running e = refl
running_status succeeded e = ground arith
running_status failed e = ground arith

expires-Stranded :
    (env : Env) (now run_id : ℕ) (run : ScheduledJobRun) (db : Db)
    → Stranded run_id run db
    → Stranded run_id run (expire_stale_queued_jobs_for_new_day env now db).1
unfolding expire_stale_queued_jobs_for_new_day
expires-Stranded env now run_id run db s = record {
  idle =
      rw ((finalize_runs-jobs now (where_rows expired db.jobs) rows).same_jobs)
        (update-IsIdleRun expired (expired_error now) run_id db.jobs is_open (λ j. refl) s.idle);
  row =
      finalize_runs-elsewhere run_id now (where_rows expired db.jobs) rows
        (open_elsewhere expired run_id db.jobs is_open s.idle)
      ∙ s.row;
}
  where
    expired : Job → Bool
    expired = is_expired (env.day_start now)

    rows : Db
    rows = expire_rows (env.day_start now) now db

    is_open : IsOpen expired
    is_open j e = open_status j.status (and_left (is_queued j) _ e)

CleanUps-Stranded :
    {env : Env} {start last : Db} (run_id : ℕ) (run : ScheduledJobRun)
    → Stranded run_id run start
    → CleanUps env start last
    → Stranded run_id run last
unfolding reap_stale_running_jobs requeue_stale_running_jobs
CleanUps-Stranded run_id run s no_more = s
CleanUps-Stranded run_id run s (reaps now db more) = record {
  idle =
      update-IsIdleRun is_running (reaped now) run_id db.jobs (λ j e. running_status j.status e)
        (λ j. refl) (CleanUps-Stranded run_id run s more).idle;
  row = (CleanUps-Stranded run_id run s more).row;
}
CleanUps-Stranded run_id run s (requeues now older_than db more) = record {
  idle =
      update-IsIdleRun (is_overdue (now - older_than)) requeued run_id db.jobs
        (λ j e. running_status j.status (and_left (is_running j) _ e)) (λ j. refl)
        (CleanUps-Stranded run_id run s more).idle;
  row = (CleanUps-Stranded run_id run s more).row;
}
CleanUps-Stranded {env} run_id run s (expires now db more) =
    expires-Stranded env now run_id run db (CleanUps-Stranded run_id run s more)

-- If a run is running and none of its jobs waits in the queue, then after `reap_stale_running_jobs`,
-- and after any clean-ups that follow it, no job of the run waits or runs, but the row of the run is
-- as it was, and running. A call of `_maybe_finalize_scheduled_job_run` for the run, at any time
-- then, would close it over its jobs.
pub reap_strands_run :
    (env : Env) (now later run_id : ℕ) (db last : Db) (run : ScheduledJobRun)
    → get_run db run_id ≡ some run
    → run_is_running run ≡ true
    → any is_queued (siblings_of run_id db) ≡ false
    → CleanUps env (reap_stale_running_jobs now db).1 last
    → (any is_outstanding (siblings_of run_id last) ≡ false)
      × (get_run last run_id ≡ some run)
      × ((new : ScheduledJobRun) × (get_run
              (maybe_finalize_scheduled_job_run later run_id last)
              run_id
            ≡ some new)
          × Closed run new (siblings_of run_id last) later)
unfolding reap_stale_running_jobs
reap_strands_run env now later run_id db last run e on waiting more = (
  stranded.idle,
  stranded.row,
  maybe_finalize_scheduled_job_run_closes later run_id last run stranded.row on stranded.idle,
)
  where
    stranded : Stranded run_id run last
    stranded =
        CleanUps-Stranded run_id run
          (record { idle = reaped_siblings now run_id db.jobs waiting; row = e }) more
