-- ===== src/Backend/Stale/Rollover.antt =====
-- Which jobs a new day ends, and that it leaves the others as they are.
use rise_sun.Common.{ℕ, ◌<◌, List, [], ◌∷◌, Bool, true, false, some, ◌≡◌, refl, ltb}
use rise_sun.Common.{if◌then◌else◌, ◌&&◌, Bool-cases, inl, inr, arith}
use rise_sun.Backend.Jobs.{
  Job, JobType, JobStatus, queued, running, succeeded, failed, is_queued, bare_error, read_current,
  read_load_profile, read_rated_current, write_datetime, write_parameter, disconnect, reconnect,
  read_relay_state, other_type,
}
use rise_sun.Backend.Db.{Db}
use rise_sun.Backend.Tables.{update_rows, where_rows}
use rise_sun.Backend.Calls.{Env}
use rise_sun.Backend.Consistency.{finalize_runs-jobs}
use rise_sun.Backend.Stale.{
  is_expired, is_routine, expired_error, expire_rows, finalize_runs,
  expire_stale_queued_jobs_for_new_day,
}

-- The types that the schedules repeat every day.
pub data Routine : JobType → Type 0 where
  current : Routine read_current
  load_profile : Routine read_load_profile
  rated_current : Routine read_rated_current

-- A routine job that still waits, from before the day.
pub record Expires (day_start : ℕ) (job : Job) : Type 0 where
  waits : job.status ≡ queued
  routine : Routine job.job_type
  before : job.created_at < day_start

-- What becomes of one job: it fails now, or it stays.
pub data Rollover (day_start now : ℕ) (old new : Job) : Type 0 where
  expires :
      Expires day_start old
      → new ≡ record old {
        status = failed;
        error = some (bare_error "EXPIRED_DAY_ROLLOVER");
        finished_at = some now;
      }
      → Rollover day_start now old new
  stays : ¬ Expires day_start old → new ≡ old → Rollover day_start now old new

-- Two lists of the same length, related row by row.
abbrev pub RowByRow : (Job → Job → Type 0) → List Job → List Job → Type 0
RowByRow P [] [] = Unit {0}
RowByRow P (x ∷ xs) (y ∷ ys) = P x y × RowByRow P xs ys
RowByRow P _ _ = ⊥

Routine-is_routine : (t : JobType) → is_routine t ≡ true → Routine t
Routine-is_routine read_current e = current
Routine-is_routine read_load_profile e = load_profile
Routine-is_routine read_rated_current e = rated_current
Routine-is_routine write_datetime e = ground arith
Routine-is_routine write_parameter e = ground arith
Routine-is_routine disconnect e = ground arith
Routine-is_routine reconnect e = ground arith
Routine-is_routine read_relay_state e = ground arith
Routine-is_routine (other_type name) e = ground arith

is_routine-Routine : {t : JobType} → Routine t → is_routine t ≡ true
is_routine-Routine current = refl
is_routine-Routine load_profile = refl
is_routine-Routine rated_current = refl

status-queued : (s : JobStatus) → elim s [ queued ↦ true | _ ↦ false ] ≡ true → s ≡ queued
status-queued queued e = refl
status-queued running e = ground arith
status-queued succeeded e = ground arith
status-queued failed e = ground arith

all_three : (a b c : Bool) → (a && (b && c)) ≡ true → (a ≡ true) × (b ≡ true) × (c ≡ true)
all_three true true c e = (refl, refl, e)
all_three true false c e = ground arith
all_three false b c e = ground arith

module _ (day_start : ℕ) (job : Job) where
  is_expired-Expires : is_expired day_start job ≡ true → Expires day_start job
  is_expired-Expires e = record {
    waits = status-queued job.status parts.0;
    routine = Routine-is_routine job.job_type parts.1;
    before = ground (arith, parts.2);
  }
    where
      parts :
          (is_queued job ≡ true)
          × (is_routine job.job_type ≡ true)
          × (ltb job.created_at day_start ≡ true)
      parts = all_three _ _ _ e

  Expires-is_expired : Expires day_start job → is_expired day_start job ≡ true
  Expires-is_expired h = rw (h.waits, is_routine-Routine h.routine) (ground (arith, h.before))

  expire-Rollover :
      (now : ℕ)
      → Rollover day_start now job (if is_expired day_start job then expired_error now job else job)
  expire-Rollover now = elim (Bool-cases (is_expired day_start job)) [
    | inl e ↦ rw e (expires (is_expired-Expires e) refl)
    | inr e ↦ rw e (stays (λ h. ground (arith, e, Expires-is_expired h)) refl)
  ]

expire_rows-Rollover :
    (day_start now : ℕ) (jobs : List Job)
    → RowByRow
        (Rollover day_start now)
        jobs
        (update_rows (is_expired day_start) (expired_error now) jobs)
unfolding update_rows
expire_rows-Rollover day_start now [] = tt
expire_rows-Rollover day_start now (job ∷ jobs) =
    (expire-Rollover day_start job now, expire_rows-Rollover day_start now jobs)

-- On a new day each job of the table either expires or stays, in its place. It expires exactly if it
-- waits, is a read of registers, of the load profile or of the rated current, and was created
-- before the day began: it has then failed at this time with EXPIRED_DAY_ROLLOVER, and its other
-- columns are kept. Every other job is as it was: commands, jobs of this day, and those that run or
-- have ended.
pub expire_stale_queued_jobs_lem :
    (env : Env) (now : ℕ) (db : Db)
    → RowByRow
        (Rollover (env.day_start now) now)
        db.jobs
        (expire_stale_queued_jobs_for_new_day env now db).1.jobs
unfolding expire_stale_queued_jobs_for_new_day
expire_stale_queued_jobs_lem env now db =
    rw same (expire_rows-Rollover (env.day_start now) now db.jobs)
  where
    same :
        (finalize_runs now
          (where_rows (is_expired (env.day_start now)) db.jobs)
          (expire_rows (env.day_start now) now db)).jobs
        ≡ update_rows (is_expired (env.day_start now)) (expired_error now) db.jobs
    same =
        (finalize_runs-jobs now (where_rows (is_expired (env.day_start now)) db.jobs)
          (expire_rows (env.day_start now) now db)).same_jobs
