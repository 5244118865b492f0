-- ===== src/Backend/Worker.antt =====
-- backend/app/services/job_worker.py, `_JOB_HANDLERS` and `_process_one`. `now` is the time of the
-- claim and `later` that of what the handler and the finalizers write.
pub mod Settles
pub mod Overlap
use rise_sun.Common.{ℕ, List, Bool, true, false, Option, none, some, ◌==◌, if◌then◌else◌}
use rise_sun.Backend.Jobs.{
  Job, JobType, JobError, bare_error, read_current, write_datetime, write_parameter,
  read_load_profile, disconnect, reconnect, read_rated_current, read_relay_state, other_type,
}
use rise_sun.Backend.Db.{Db, get_job}
use rise_sun.Backend.Tables.{update_rows}
use rise_sun.Backend.Calls.{Env, GatewayClient, Attempt, done, raised}
use rise_sun.Backend.Outcomes.{failed_with}
use rise_sun.Backend.Finalizers.{
  maybe_finalize_scheduled_job_run, maybe_finalize_disconnect_batch_item,
}
use rise_sun.Backend.Queue.{claim_next_job}
use rise_sun.Backend.Handlers.{
  run_read_current, run_read_rated_current, run_read_relay_state, run_read_load_profile,
  run_disconnect_operation,
}
use rise_sun.Backend.Writes.{run_write_datetime, run_write_parameter}

-- The row of a job whose handler has raised, as the session holds it. The commit of this clause is
-- taken to succeed: a database that fails is not modelled.
abbrev pub worker_error : ℕ → ℕ → Db → Db
worker_error later key db = record db {
  jobs = update_rows (λ j. j.id == key) (failed_with (bare_error "WORKER_ERROR") later) db.jobs;
}

abbrev pub caught : ℕ → Job → Attempt Db → Db
caught later job (done db) = db
caught later job (raised db) = worker_error later job.id db

abbrev pub finalize_own_run : ℕ → Option ℕ → Db → Db
finalize_own_run later none db = db
finalize_own_run later (some run) db = maybe_finalize_scheduled_job_run later run db

-- The job as it is after its handler, for the item of its batch.
abbrev settle_own_item : ℕ → Option Job → Db → Db
settle_own_item later none db = db
settle_own_item later (some job) db = maybe_finalize_disconnect_batch_item later job db

abbrev pub is_operation : JobType → Bool
is_operation disconnect = true
is_operation reconnect = true
is_operation _ = false

abbrev pub after_handler : ℕ → Job → Db → Db
after_handler later job db =
    if is_operation job.job_type
    then settle_own_item later (get_job db job.id)
        (finalize_own_run later job.scheduled_job_run_id db)
    else finalize_own_run later job.scheduled_job_run_id db

module _ (env : Env) (client : GatewayClient) where
  -- `_JOB_HANDLERS.get(job.job_type)`; a type without a handler raises.
  unfoldable pub run_handler : ℕ → Job → JobType → Db → Attempt Db
  run_handler later job read_current db = run_read_current env client later job db
  run_handler later job write_datetime db = run_write_datetime env client later job db
  run_handler later job write_parameter db = run_write_parameter env client later job db
  run_handler later job read_load_profile db = run_read_load_profile env client later job db
  run_handler later job disconnect db = run_disconnect_operation env client later disconnect job db
  run_handler later job reconnect db = run_disconnect_operation env client later reconnect job db
  run_handler later job read_rated_current db = run_read_rated_current env client later job db
  run_handler later job read_relay_state db = run_read_relay_state env client later job db
  run_handler later job (other_type name) db = raised db

  unfoldable pub run_job : ℕ → Job → Db → Db
  unfolding run_handler
  run_job later job db =
      after_handler later job (caught later job (run_handler later job job.job_type db))

  abbrev process_claimed : ℕ → Option Job × Db → Bool × Db
  unfolding run_job
  process_claimed later (none, db) = (false, db)
  process_claimed later (some job, db) = (true, run_job later job db)

  unfoldable pub process_one : (ℕ → Bool) → ℕ → ℕ → Db → Bool × Db
  unfolding claim_next_job process_claimed
  process_one locked now later db = process_claimed later (claim_next_job locked now db)
