-- ===== src/Backend/Finalizers/Runs.antt =====
-- When a run of a schedule is closed, and with which outcome.
use rise_sun.Common.{ℕ, suc, ◌+◌, List, [], ◌∷◌, Bool, true, false, Option, none, some}
use rise_sun.Common.{◌≡◌, refl, ◌==◌, if◌then◌else◌, length, arith, Bool-cases, inl, inr}
use rise_sun.Common.{==→eq}
use rise_sun.Backend.Jobs.{
  Job, JobStatus, queued, running, succeeded, failed, is_outstanding, is_succeeded, is_failed,
}
use rise_sun.Backend.Db.{
  Db, ScheduledJobRun, ScheduledJobRunStatus, run_running, run_succeeded, partial_failure,
  run_failed, get_run, Notification,
}
use rise_sun.Backend.Tables.{any, count}
use rise_sun.Backend.Tables.Laws.{find_row-rewritten}
use rise_sun.Backend.Finalizers.{
  siblings_of, run_is_running, run_outcome, finalized_run, finalize_run, notify_if,
  maybe_finalize_scheduled_job_run,
}

-- Where no job is outstanding, each has succeeded or failed.
pub all_ended_count :
    (jobs : List Job)
    → any is_outstanding jobs ≡ false
    → count is_succeeded jobs + count is_failed jobs ≡ length jobs
unfolding any count
all_ended_count [] e = refl
all_ended_count (job ∷ jobs) e = go job.status e (all_ended_count jobs)
  where
    go :
        (s : JobStatus)
        → (if (elim s [ queued ↦ true | running ↦ true | _ ↦ false ])
            then true
            else any is_outstanding jobs)
          ≡ false
        → (any is_outstanding jobs ≡ false
            → count is_succeeded jobs + count is_failed jobs ≡ length jobs)
        → (if (elim s [ succeeded ↦ true | _ ↦ false ])
              then suc (count is_succeeded jobs)
              else count is_succeeded jobs)
            + (if (elim s [ failed ↦ true | _ ↦ false ])
                then suc (count is_failed jobs)
                else count is_failed jobs)
          ≡ suc (length jobs)
    go queued h k = ground arith
    go running h k = ground arith
    go succeeded h k = omega (arith, k h)
    go failed h k = omega (arith, k h)

-- The outcome of a run, from the jobs that failed and all jobs.
pub data Outcome (bad total : ℕ) : ScheduledJobRunStatus → Type 0 where
  none_failed : bad ≡ 0 → Outcome bad total run_succeeded
  some_failed : ¬ (bad ≡ 0) → ¬ (bad ≡ total) → Outcome bad total partial_failure
  all_failed : ¬ (bad ≡ 0) → bad ≡ total → Outcome bad total run_failed

run_outcome-Outcome :
    (good bad total : ℕ) → good + bad ≡ total → Outcome bad total (run_outcome good bad)
run_outcome-Outcome good bad total e = elim (Bool-cases (bad == 0)) [
  | inl z ↦ rw z (none_failed (==→eq _ _ z))
  | inr z ↦ elim (Bool-cases (good == 0)) [
    | inl g ↦ rw (z, g) (all_failed (λ h. ground arith) (ground (arith, e)))
    | inr g ↦ rw (z, g) (some_failed (λ h. ground arith) (λ h. ground (arith, e, h)))
  ]
]

-- A run whose row has been closed over its jobs.
pub record Closed (run new : ScheduledJobRun) (jobs : List Job) (now : ℕ) : Type 0 where
  pub same_id : new.id ≡ run.id
  pub counted : new.meters_succeeded + new.meters_failed ≡ length jobs
  pub outcome : Outcome new.meters_failed (length jobs) new.status
  pub ended : new.finished_at ≡ some now

abbrev closed_run : ℕ → ℕ → Db → ScheduledJobRun → ScheduledJobRun
closed_run now run_id db run = finalized_run now (siblings_of run_id db) run

pub notify_if-runs :
    (b : Bool) (line : Notification) (db : Db) → (notify_if b line db).runs ≡ db.runs
notify_if-runs true line db = refl
notify_if-runs false line db = refl

module _ (now run_id : ℕ) (db : Db) (run : ScheduledJobRun) where
  pub maybe_finalize_scheduled_job_run_closes :
      get_run db run_id ≡ some run
      → run_is_running run ≡ true
      → any is_outstanding (siblings_of run_id db) ≡ false
      → (new : ScheduledJobRun) × (get_run (maybe_finalize_scheduled_job_run now run_id db) run_id
          ≡ some new)
        × Closed run new (siblings_of run_id db) now
  unfolding maybe_finalize_scheduled_job_run
  maybe_finalize_scheduled_job_run_closes e active idle = (
    closed_run now run_id db run,
    rw (idle, e, active, notify_if-runs _ _ _)
        (find_row-rewritten (λ r. r.id) run_id db.runs run (closed_run now run_id db run) e refl),
    record {
      same_id = refl;
      counted = all_ended_count (siblings_of run_id db) idle;
      outcome = run_outcome-Outcome _ _ _ (all_ended_count (siblings_of run_id db) idle);
      ended = refl;
    },
  )

-- An ended run, or none, is left alone.
finalize_run-idle :
    (now : ℕ) (siblings : List Job) (run : Option ScheduledJobRun) (db : Db)
    → ((r : ScheduledJobRun) → run ≡ some r → run_is_running r ≡ false)
    → finalize_run now siblings run db ≡ db
finalize_run-idle now siblings none db h = refl
finalize_run-idle now siblings (some run) db h = rw (h run refl)

Outcome-ended :
    {bad total : ℕ} {s : ScheduledJobRunStatus}
    → Outcome bad total s
    → elim s [ run_running ↦ true | _ ↦ false ] ≡ false
Outcome-ended (none_failed e) = refl
Outcome-ended (some_failed e h) = refl
Outcome-ended (all_failed e h) = refl

stays :
    (later run_id : ℕ) (db : Db)
    → ((r : ScheduledJobRun) → get_run db run_id ≡ some r → run_is_running r ≡ false)
    → maybe_finalize_scheduled_job_run later run_id db ≡ db
unfolding maybe_finalize_scheduled_job_run
stays later run_id db h = elim (Bool-cases (any is_outstanding (siblings_of run_id db))) [
  | inl e ↦ rw e
  | inr e ↦ rw e (finalize_run-idle later (siblings_of run_id db) (get_run db run_id) db h)
]

waits :
    (later run_id : ℕ) (db : Db)
    → any is_outstanding (siblings_of run_id db) ≡ true
    → maybe_finalize_scheduled_job_run later run_id db ≡ db
unfolding maybe_finalize_scheduled_job_run
waits later run_id db e = rw e

-- A run that is found once has one row to be found.
only_run :
    (o : Option ScheduledJobRun) (a : ScheduledJobRun)
    → o ≡ some a
    → run_is_running a ≡ false
    → (r : ScheduledJobRun) → o ≡ some r
    → run_is_running r ≡ false
only_run none a e h r f = ground arith
only_run (some x) a e h r f = ground arith

module _ (now later run_id : ℕ) (db : Db) where
  -- A call that changes nothing at one time changes nothing at another.
  closed_already :
      ((r : ScheduledJobRun) → get_run db run_id ≡ some r → run_is_running r ≡ false)
      → maybe_finalize_scheduled_job_run later run_id
          (maybe_finalize_scheduled_job_run now run_id db)
        ≡ maybe_finalize_scheduled_job_run now run_id db
  closed_already h = rw (stays now run_id db h) (stays later run_id db h)

  -- Closing a run twice is closing it once: the second call, at whatever time, changes nothing, and
  -- adds no second notification.
  pub maybe_finalize_scheduled_job_run_twice :
      maybe_finalize_scheduled_job_run later run_id (maybe_finalize_scheduled_job_run now run_id db)
      ≡ maybe_finalize_scheduled_job_run now run_id db
  maybe_finalize_scheduled_job_run_twice = go (get_run db run_id) refl
    where
      go :
          (o : Option ScheduledJobRun)
          → get_run db run_id ≡ o
          → maybe_finalize_scheduled_job_run later run_id
              (maybe_finalize_scheduled_job_run now run_id db)
            ≡ maybe_finalize_scheduled_job_run now run_id db
      go none e = closed_already (λ r f. ground arith)
      go (some run) e = elim (Bool-cases (run_is_running run)) [
        | inl a ↦ elim (Bool-cases (any is_outstanding (siblings_of run_id db))) [
          | inl w ↦ rw (waits now run_id db w) (waits later run_id db w)
          | inr w ↦ stays later run_id _ (
              only_run _ _ (maybe_finalize_scheduled_job_run_closes now run_id db run e a w).1 (
                Outcome-ended
                  (maybe_finalize_scheduled_job_run_closes now run_id db run e a w).2.outcome))
        ]
        | inr a ↦ closed_already (only_run _ run e a)
      ]
