-- ===== src/Backend/Consistency.antt =====
-- Every operation on the table of jobs keeps its rows consistent.
pub mod Reports
pub mod Reach
use rise_sun.Common.{ℕ, suc, List, [], ◌∷◌, Bool, true, false, Option, none, some, ◌≡◌, refl, take}
use rise_sun.Common.{◌∙◌, ◌-◌, if◌then◌else◌, ◌&&◌, All, arith, inl, inr, Bool-cases, length}
use Prim.Native.String.{String}
use rise_sun.Backend.Jobs.{
  Job, JobType, JobStatus, JobError, Payload, queued, running, is_queued, is_running, whole_error,
  bare_error,
}
use rise_sun.Backend.Db.{Db, Meter, ScheduledJob, get_job, put_job}
use rise_sun.Backend.Tables.{where_rows, order_by, map_rows, update_rows, find_row}
use rise_sun.Backend.Tables.Laws.{
  All-update_rows, All-where_rows, All-take, All-order_by, All-find_row,
}
use rise_sun.Backend.Calls.{Env, GatewayClient, Attempt, done, raised}
use rise_sun.Backend.Rewrites.{write_same, IsConsistent, Fits, IsHeld, Ends, Rewrites}
use rise_sun.Backend.Outcomes.Rows.{EndsIn}
use rise_sun.Backend.Outcomes.{failed_with, requeued}
use rise_sun.Backend.Finalizers.Jobs.{SameJobs, SameJobs-self}
use rise_sun.Backend.Queue.{
  claim_next_job, claimed, select_next_job, put_jobs, claim_all, priority_or, due_for, is_due_for,
  by_tier, earlier, is_priority_type, select_due_jobs, claim_due_jobs_for_meter,
}
use rise_sun.Backend.Worker.{finalize_own_run, run_job}
use rise_sun.Backend.Handlers.Rows.{IsHeld-Holds}
use rise_sun.Backend.Worker.Settles.{
  claimed-IsHeld, selected_waits, run_job-Ends, finalize_own_run-jobs,
}
use rise_sun.Backend.Stale.{
  reap_stale_running_jobs, requeue_stale_running_jobs, is_overdue, is_expired, finalize_runs,
  expired_error, expire_rows, expire_stale_queued_jobs_for_new_day,
}
use rise_sun.Backend.Report.{JobResultItem, Report, report_one, report_all}
use rise_sun.Backend.Report.Rows.{
  Taken, skipped_it, ended_it, report_one-Taken, running_Fits, running-IsHeld,
}
use rise_sun.Backend.Trigger.{
  new_job, add_job, add_jobs, add_run, set_last_run, start_run, trigger_one, trigger_all, run_once,
  trigger_pairs,
}

abbrev pub AllConsistent : Db → Type 0
AllConsistent db = All IsConsistent db.jobs

pub Rewrites-AllConsistent :
    {job : Job} {key : ℕ} {old new : List Job}
    → All IsConsistent old
    → Rewrites (Ends job) key old new
    → All IsConsistent new
Rewrites-AllConsistent {old = old} all r =
    rw (r.rows)
      (All-update_rows IsConsistent _ (λ j. r.row) old (λ j e c. r.row_fits.consistent) all)

pub SameJobs-AllConsistent :
    {db next : Db} → SameJobs db next → AllConsistent db → AllConsistent next
SameJobs-AllConsistent same all = rw (same.same_jobs) all

pub claim_next_job-AllConsistent :
    (locked : ℕ → Bool) (now : ℕ) (db : Db)
    → AllConsistent db
    → AllConsistent (claim_next_job locked now db).1
unfolding claim_next_job
claim_next_job-AllConsistent locked now db all = go (select_next_job locked db) refl
  where
    go :
        (o : Option Job)
        → select_next_job locked db ≡ o
        → AllConsistent (claim_next_job locked now db).1
    go none e = rw e all
    go (some job) e = rw e (
        All-update_rows IsConsistent _ (λ j. claimed now job) db.jobs
          (λ j same c. (held.1, held.2, held.3)) all)
      where
        waits : IsConsistent job × (is_queued job ≡ true)
        waits = selected_waits locked db job all e

        held : IsHeld (claimed now job)
        held = claimed-IsHeld now job waits.0 waits.1

-- The job is the row of the table that has its key.
abbrev pub IsOnlyRow : Job → List Job → Type 0
IsOnlyRow job jobs = All (λ j. j.id ≡ job.id → j ≡ job) jobs

pub run_job-AllConsistent :
    (env : Env) (client : GatewayClient) (later : ℕ) (job : Job) (db : Db)
    → get_job db job.id ≡ some job
    → is_running job ≡ true
    → IsOnlyRow job db.jobs
    → AllConsistent db
    → AllConsistent (run_job env client later job db)
run_job-AllConsistent env client later job db found run only all =
    Rewrites-AllConsistent all
      (run_job-Ends env client later job db.jobs db held (record {
        held_row = record {
          row = job;
          row_id = refl;
          row_fits = IsHeld-Holds held;
          rows = write_same job db.jobs only;
        };
      })).ended_row
  where
    held : IsHeld job
    held = running-IsHeld job (All-find_row IsConsistent _ db.jobs job found all) run

put_jobs-AllConsistent :
    (jobs : List Job) (db : Db)
    → All IsConsistent jobs
    → AllConsistent db
    → AllConsistent (put_jobs jobs db)
unfolding put_jobs
put_jobs-AllConsistent [] db h all = all
put_jobs-AllConsistent (job ∷ jobs) db h all =
    put_jobs-AllConsistent jobs _ h.1
      (All-update_rows IsConsistent _ (λ j. job) db.jobs (λ j e c. h.0) all)

-- A job that may be claimed: consistent, and waiting.
abbrev IsWaiting : Job → Type 0
IsWaiting job = (IsConsistent job) × (is_queued job ≡ true)

claimed-AllConsistent :
    (now : ℕ) (jobs : List Job)
    → All IsWaiting jobs
    → All IsConsistent (map_rows (claimed now) jobs)
unfolding map_rows
claimed-AllConsistent now [] h = tt
claimed-AllConsistent now (job ∷ jobs) h =
    ((held.1, held.2, held.3), claimed-AllConsistent now jobs h.1)
  where
    held : IsHeld (claimed now job)
    held = claimed-IsHeld now job h.0.0 h.0.1

priority_or-IsWaiting :
    (xs ys : List Job) → All IsWaiting xs → All IsWaiting ys → All IsWaiting (priority_or xs ys)
priority_or-IsWaiting [] ys h k = k
priority_or-IsWaiting (x ∷ xs) ys h k = h

pub and_left : (a b : Bool) → (a && b) ≡ true → a ≡ true
and_left true b e = refl
and_left false b e = ground arith

due_for-IsWaiting :
    (locked : ℕ → Bool) (meter_id : ℕ) (types : List JobType) (db : Db)
    → AllConsistent db
    → All IsWaiting (due_for locked meter_id types db)
due_for-IsWaiting locked meter_id types db all =
    weaken (where_rows (is_due_for locked meter_id types) db.jobs)
      (All-where_rows IsConsistent (is_due_for locked meter_id types) db.jobs all)
  where
    weaken :
        (xs : List Job)
        → All (λ j. (IsConsistent j) × (is_due_for locked meter_id types j ≡ true)) xs
        → All IsWaiting xs
    weaken [] h = tt
    weaken (x ∷ xs) h = ((h.0.0, and_left (is_queued x) _ h.0.1), weaken xs h.1)

pub claim_due_jobs_for_meter-AllConsistent :
    (locked : ℕ → Bool) (now meter_id : ℕ) (types : List JobType) (limit : ℕ) (db : Db)
    → AllConsistent db
    → AllConsistent (claim_due_jobs_for_meter locked now meter_id types limit db).1
unfolding claim_due_jobs_for_meter select_due_jobs
claim_due_jobs_for_meter-AllConsistent locked now meter_id types limit db all =
    put_jobs-AllConsistent _ db
      (claimed-AllConsistent now _ (
        priority_or-IsWaiting _ _ (found earlier (where_rows is_priority_type types))
          (found by_tier types)))
      all
  where
    found :
        (before : Job → Job → Bool) (ts : List JobType)
        → All IsWaiting (take limit (order_by before (due_for locked meter_id ts db)))
    found before ts =
        All-take IsWaiting limit _
          (All-order_by IsWaiting before _ (due_for-IsWaiting locked meter_id ts db all))

pub report_one-AllConsistent :
    (now : ℕ) (meter : Meter) (item : JobResultItem) (r : Report)
    → AllConsistent r.db
    → AllConsistent (report_one now meter item r).db
report_one-AllConsistent now meter item r all = go (report_one-Taken now meter item r all)
  where
    go : {job : Option Job} {next : Report} → Taken r job next → AllConsistent next.db
    go (skipped_it e) = rw e all
    go (ended_it j found run a b ends) = Rewrites-AllConsistent all ends.ended_row

pub report_all-AllConsistent :
    (now : ℕ) (meter : Meter) (items : List JobResultItem) (r : Report)
    → AllConsistent r.db
    → AllConsistent (report_all now meter items r).db
unfolding report_all
report_all-AllConsistent now meter [] r all = all
report_all-AllConsistent now meter (item ∷ items) r all =
    report_all-AllConsistent now meter items _ (report_one-AllConsistent now meter item r all)

pub reap-AllConsistent :
    (now : ℕ) (db : Db) → AllConsistent db → AllConsistent (reap_stale_running_jobs now db).1
unfolding reap_stale_running_jobs
reap-AllConsistent now db all = All-update_rows IsConsistent _ _ db.jobs (λ j e c. (tt, tt)) all

pub requeue-AllConsistent :
    (now older_than : ℕ) (db : Db)
    → AllConsistent db
    → AllConsistent (requeue_stale_running_jobs now older_than db).1
unfolding requeue_stale_running_jobs
requeue-AllConsistent now older_than db all =
    All-update_rows IsConsistent (is_overdue (now - older_than)) requeued db.jobs put_back all
  where
    put_back :
        (j : Job)
        → is_overdue (now - older_than) j ≡ true
        → IsConsistent j
        → IsConsistent (requeued j)
    put_back j e c = (refl, held.2, held.3)
      where
        held : IsHeld j
        held = running_Fits j.status _ _ _ c (and_left (is_running j) _ e)

pub finalize_runs-jobs :
    (now : ℕ) (jobs : List Job) (db : Db) → SameJobs db (finalize_runs now jobs db)
unfolding finalize_runs
finalize_runs-jobs now [] db = SameJobs-self
finalize_runs-jobs now (job ∷ jobs) db = record {
  same_jobs =
      (finalize_runs-jobs now jobs _).same_jobs
      ∙ (finalize_own_run-jobs now job.scheduled_job_run_id db).same_jobs;
}

pub expire-AllConsistent :
    (env : Env) (now : ℕ) (db : Db)
    → AllConsistent db
    → AllConsistent (expire_stale_queued_jobs_for_new_day env now db).1
unfolding expire_stale_queued_jobs_for_new_day
expire-AllConsistent env now db all =
    SameJobs-AllConsistent
      (finalize_runs-jobs now (where_rows (is_expired (env.day_start now)) db.jobs)
        (expire_rows (env.day_start now) now db))
      (All-update_rows IsConsistent (is_expired (env.day_start now)) (expired_error now) db.jobs
        (λ j e c. (tt, tt)) all)
