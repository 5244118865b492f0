-- ===== src/Backend/Consistency/Reach.antt =====
-- The operations as steps on the database, in any order, and the invariant of all of them.
use rise_sun.Backend.Billing.{create_batch}
use rise_sun.Backend.Db.{DisconnectBatchOperation}
use rise_sun.Common.{ℕ, List, [], ◌∷◌, Bool, true, Option, some, ◌≡◌, refl}
use rise_sun.Common.{ℤ}
use Prim.Native.String.{String}
use rise_sun.Backend.Jobs.{Job, JobType, JsonValue, Payload, is_queued, is_running}
use rise_sun.Backend.Db.{Db, Meter, ScheduledJob}
use rise_sun.Backend.Calls.{Env, GatewayClient}
use rise_sun.Backend.Rewrites.{IsConsistent}
use rise_sun.Backend.Queue.{claim_due_jobs_for_meter, claim_next_job}
use rise_sun.Backend.Worker.{run_job}
use rise_sun.Backend.Db.{get_job}
use rise_sun.Backend.Stale.{
  reap_stale_running_jobs, requeue_stale_running_jobs, expire_stale_queued_jobs_for_new_day,
}
use rise_sun.Backend.Report.{
  JobResultItem, ProfileReport, report_job_results, report_load_profile_results,
}
use rise_sun.Backend.Trigger.{
  add_job, add_jobs, start_run, trigger_one, trigger_all, run_once, trigger_pairs, due_schedules,
}
use rise_sun.Backend.Watch.{detect_offline, apply_low_consumption_range}
use rise_sun.Backend.Consistency.Reports.{
  report_load_profile-AllConsistent, report_job_results-AllConsistent, create_batch-AllConsistent,
}
use rise_sun.Backend.Consistency.{
  AllConsistent, claim_next_job-AllConsistent, run_job-AllConsistent, IsOnlyRow,
  claim_due_jobs_for_meter-AllConsistent, reap-AllConsistent, requeue-AllConsistent,
  expire-AllConsistent,
}

add_jobs-AllConsistent :
    (now : ℕ) (job_type : JobType) (run_id : ℕ) (pairs : List (Meter × Payload)) (db : Db)
    → AllConsistent db
    → AllConsistent (add_jobs now job_type run_id pairs db)
unfolding add_jobs
add_jobs-AllConsistent now job_type run_id [] db all = all
add_jobs-AllConsistent now job_type run_id ((meter, payload) ∷ pairs) db all =
    add_jobs-AllConsistent now job_type run_id pairs _ ((refl, refl, refl), all)

start_run-AllConsistent :
    (now : ℕ) (s : ScheduledJob) (pairs : List (Meter × Payload)) (db : Db)
    → AllConsistent db
    → AllConsistent (start_run now s pairs db)
unfolding start_run
start_run-AllConsistent now s [] db all = all
start_run-AllConsistent now s (pair ∷ pairs) db all =
    add_jobs-AllConsistent now s.job_type db.next_run (pair ∷ pairs) _ all

trigger_all-AllConsistent :
    (env : Env) (local_iso : ℕ → String) (now : ℕ) (due : List ScheduledJob) (db : Db)
    → AllConsistent db
    → AllConsistent (trigger_all env local_iso now due db)
unfolding trigger_all trigger_one
trigger_all-AllConsistent env local_iso now [] db all = all
trigger_all-AllConsistent env local_iso now (s ∷ due) db all =
    trigger_all-AllConsistent env local_iso now due _
      (start_run-AllConsistent now s (trigger_pairs env local_iso now db s) db all)

-- A step of the backend, at any times and under any locks. A turn of a worker is two steps: the
-- claim, which is committed, and later the handler with the finalizers; the steps of other workers
-- and of everything else may come in between. The second one has the job as it was claimed, and the
-- session writes only the columns that it changes: the step is the model's where the row of the job
-- is still as the worker has it. The other steps are a transaction or a turn of a loop each; the
-- last one is a new job of the API, which waits.
pub data Step (env : Env) (client : GatewayClient) : Db → Db → Type 0 where
  takes :
      (locked : ℕ → Bool) (now : ℕ) (db : Db) → Step env client db (claim_next_job locked now db).1
  carries_out :
      (later : ℕ) (job : Job) (db : Db)
      → get_job db job.id ≡ some job
      → is_running job ≡ true
      → IsOnlyRow job db.jobs
      → Step env client db (run_job env client later job db)
  claims :
      (locked : ℕ → Bool) (now meter_id : ℕ) (types : List JobType) (limit : ℕ) (db : Db)
      → Step env client db (claim_due_jobs_for_meter locked now meter_id types limit db).1
  reports :
      (now : ℕ) (serial : String) (items : List JobResultItem) (db : Db)
      → Step env client db (report_job_results now serial items db).db
  reports_profile :
      (now : ℕ) (serial : String) (body : ProfileReport) (db : Db)
      → Step env client db (report_load_profile_results env now serial body db).1
  reaps : (now : ℕ) (db : Db) → Step env client db (reap_stale_running_jobs now db).1
  requeues :
      (now older_than : ℕ) (db : Db)
      → Step env client db (requeue_stale_running_jobs now older_than db).1
  expires :
      (now : ℕ) (db : Db) → Step env client db (expire_stale_queued_jobs_for_new_day env now db).1
  schedules :
      (local_iso : ℕ → String) (next_fire : String → ℕ → Option ℕ) (now : ℕ) (db : Db)
      → Step env client db (run_once env local_iso next_fire now db)
  detects : (timeout now : ℕ) (db : Db) → Step env client db (detect_offline env timeout now db)
  marks :
      (to_float : JsonValue → Option ℤ) (low high : ℤ) (db : Db)
      → Step env client db (apply_low_consumption_range to_float low high db).1
  bills :
      (now : ℕ) (fresh : String) (operation : DisconnectBatchOperation) (key : Option String)
      (api_key_id : ℕ) (serials : List String) (db : Db)
      → Step env client db (create_batch now fresh operation key api_key_id serials db).1
  posts :
      (job : Job) (db : Db)
      → is_queued job ≡ true
      → IsConsistent job
      → Step env client db (add_job job db)

pub data Reach (env : Env) (client : GatewayClient) (first : Db) : Db → Type 0 where
  here : Reach env client first first
  next :
      {db db' : Db}
      → Reach env client first db
      → Step env client db db'
      → Reach env client first db'

pub Step-AllConsistent :
    {env : Env} {client : GatewayClient} {db db' : Db}
    → Step env client db db'
    → AllConsistent db
    → AllConsistent db'
unfolding run_once detect_offline apply_low_consumption_range
Step-AllConsistent (takes locked now db) all = claim_next_job-AllConsistent locked now db all
Step-AllConsistent {env} {client} (carries_out later job db found run only) all =
    run_job-AllConsistent env client later job db found run only all
Step-AllConsistent (claims locked now meter_id types limit db) all =
    claim_due_jobs_for_meter-AllConsistent locked now meter_id types limit db all
Step-AllConsistent (reports now serial items db) all =
    report_job_results-AllConsistent now serial items db all
Step-AllConsistent {env} (reports_profile now serial body db) all =
    report_load_profile-AllConsistent env now serial body db all
Step-AllConsistent (reaps now db) all = reap-AllConsistent now db all
Step-AllConsistent (requeues now older_than db) all = requeue-AllConsistent now older_than db all
Step-AllConsistent {env} (expires now db) all = expire-AllConsistent env now db all
Step-AllConsistent {env} (schedules local_iso next_fire now db) all =
    trigger_all-AllConsistent env local_iso now (due_schedules next_fire now db) db all
Step-AllConsistent (detects timeout now db) all = all
Step-AllConsistent (marks to_float low high db) all = all
Step-AllConsistent (bills now fresh operation key api_key_id serials db) all =
    create_batch-AllConsistent now fresh operation key api_key_id serials db all
Step-AllConsistent (posts job db e c) all = (c, all)

-- From a table whose jobs are consistent, no order of steps leads to an inconsistent job, where a
-- worker carries a job out only while the job's row, the only one with its key, is as the worker has
-- it, and running. This leaves out a job that was put back, or that a result was reported for, after
-- its claim and before its end. In a consistent table, a job that waits has no times and no error;
-- one that runs was started and has neither an end nor an error; one that has succeeded has an end
-- and no error, and one that has failed has an end and an error.
pub Reach-AllConsistent :
    (env : Env) (client : GatewayClient) (first last : Db)
    → AllConsistent first
    → Reach env client first last
    → AllConsistent last
Reach-AllConsistent env client first last all here = all
Reach-AllConsistent env client first last all (next r step) =
    Step-AllConsistent step (Reach-AllConsistent env client first _ all r)
