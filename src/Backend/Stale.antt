-- ===== src/Backend/Stale.antt =====
-- backend/app/services/job_worker.py: what becomes of jobs that were left in the table, at the
-- start of the backend, after a time limit, and on a new day in Asia/Bishkek.
pub mod Idle
pub mod Ends
pub mod Rollover
use rise_sun.Common.{
  ℕ, ◌-◌, List, [], ◌∷◌, Bool, true, false, Option, none, some, ltb, ◌&&◌, length,
}
use rise_sun.Backend.Jobs.{
  Job, JobType, JobStatus, queued, is_queued, is_running, whole_error, bare_error, read_current,
  read_load_profile, read_rated_current,
}
use rise_sun.Backend.Db.{Db}
use rise_sun.Backend.Tables.{where_rows, update_rows}
use rise_sun.Backend.Calls.{Env}
use rise_sun.Backend.Outcomes.{failed_with, requeued}
use rise_sun.Backend.Worker.{finalize_own_run}

-- The number of jobs found, and the database with each of them changed.
unfoldable pub reap_stale_running_jobs : ℕ → Db → ℕ × Db
reap_stale_running_jobs now db = (
  length (where_rows is_running db.jobs),
  record db {
    jobs = update_rows is_running (failed_with (whole_error "WORKER_RESTARTED") now) db.jobs;
  },
)

-- `started_at < cutoff`, which no row without a start satisfies.
abbrev pub started_before : ℕ → Option ℕ → Bool
started_before cutoff none = false
started_before cutoff (some t) = ltb t cutoff

abbrev pub is_overdue : ℕ → Job → Bool
is_overdue cutoff job = is_running job && started_before cutoff job.started_at

unfoldable pub requeue_stale_running_jobs : ℕ → ℕ → Db → ℕ × Db
requeue_stale_running_jobs now older_than db = (
  length (where_rows (is_overdue (now - older_than)) db.jobs),
  record db { jobs = update_rows (is_overdue (now - older_than)) requeued db.jobs },
)

-- `ROUTINE_JOB_TYPES`.
abbrev pub is_routine : JobType → Bool
is_routine read_current = true
is_routine read_load_profile = true
is_routine read_rated_current = true
is_routine _ = false

abbrev pub is_expired : ℕ → Job → Bool
is_expired day_start job =
    is_queued job && (is_routine job.job_type && ltb job.created_at day_start)

-- The runs of the jobs are finalized one after the other.
unfoldable pub finalize_runs : ℕ → List Job → Db → Db
finalize_runs now [] db = db
finalize_runs now (job ∷ jobs) db =
    finalize_runs now jobs (finalize_own_run now job.scheduled_job_run_id db)

abbrev pub expired_error : ℕ → Job → Job
expired_error = failed_with (bare_error "EXPIRED_DAY_ROLLOVER")

abbrev pub expire_rows : ℕ → ℕ → Db → Db
expire_rows day_start now db = record db {
  jobs = update_rows (is_expired day_start) (expired_error now) db.jobs;
}

unfoldable pub expire_stale_queued_jobs_for_new_day : Env → ℕ → Db → ℕ × Db
unfolding finalize_runs
expire_stale_queued_jobs_for_new_day env now db = (
  length (where_rows (is_expired (env.day_start now)) db.jobs),
  finalize_runs now (where_rows (is_expired (env.day_start now)) db.jobs)
      (expire_rows (env.day_start now) now db),
)
