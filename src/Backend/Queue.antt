-- ===== src/Backend/Queue.antt =====
-- backend/app/services/job_worker.py: how the next jobs are claimed. `locked` tells which rows
-- another transaction has locked (`FOR UPDATE SKIP LOCKED`); a claim is one transaction.
pub mod Order
use rise_sun.Common.{ℕ, zero, suc, List, ◌∷◌, [], Bool, true, false, not, ltb, ◌==◌}
use rise_sun.Common.{Option, none, some, if◌then◌else◌, ◌&&◌, ◌||◌, take}
use rise_sun.Backend.Jobs.{
  Job, JobType, JobStatus, running, is_queued, disconnect, reconnect, read_relay_state, same_type,
}
use rise_sun.Backend.Db.{Db, Meter, get_meter, put_job}
use rise_sun.Backend.Tables.{where_rows, first_by, order_by, map_rows}

-- `PRIORITY_JOB_TYPES`.
abbrev pub is_priority_type : JobType → Bool
is_priority_type disconnect = true
is_priority_type reconnect = true
is_priority_type read_relay_state = true
is_priority_type _ = false

-- `_CALL_HOME_INCOMPATIBLE_JOB_TYPES`.
abbrev pub is_call_home_incompatible : JobType → Bool
is_call_home_incompatible disconnect = true
is_call_home_incompatible reconnect = true
is_call_home_incompatible _ = false

-- The inner join with the meter, and the condition that needs it.
abbrev pub suits_meter : Job → Option Meter → Bool
suits_meter job none = false
suits_meter job (some meter) =
    not (is_call_home_incompatible job.job_type) || not meter.is_call_home

abbrev pub is_priority : Job → Bool
is_priority job = is_priority_type job.job_type

abbrev pub is_claimable : (ℕ → Bool) → Db → Job → Bool
is_claimable locked db job =
    is_queued job && (not (locked job.id) && suits_meter job (get_meter db job.meter_id))

abbrev pub claimable_jobs : (ℕ → Bool) → Db → List Job
claimable_jobs locked db = where_rows (is_claimable locked db) db.jobs

-- `ORDER BY created_at`.
abbrev pub earlier : Job → Job → Bool
earlier a b = ltb a.created_at b.created_at

-- `case((scheduled_job_run_id IS NULL, 0), else_=1)`.
abbrev pub run_tier : Option ℕ → ℕ
run_tier none = 0
run_tier (some run) = 1

abbrev pub tier : Job → ℕ
tier job = run_tier job.scheduled_job_run_id

abbrev pub by_tier : Job → Job → Bool
by_tier a b = ltb (tier a) (tier b) || ((tier a == tier b) && earlier a b)

-- The second query is sent only where the first one finds nothing.
abbrev pub first_found {ℓ} : {A : Type ℓ} → Option A → Option A → Option A
first_found none other = other
first_found (some job) other = some job

unfoldable pub select_next_job : (ℕ → Bool) → Db → Option Job
select_next_job locked db =
    first_found (first_by earlier (where_rows is_priority (claimable_jobs locked db)))
      (first_by by_tier (claimable_jobs locked db))

abbrev pub claimed : ℕ → Job → Job
claimed now job = record job { status = running; started_at = some now }

abbrev claim : ℕ → Option Job → Db → Option Job × Db
claim now none db = (none, db)
claim now (some job) db = (some (claimed now job), put_job (claimed now job) db)

unfoldable pub claim_next_job : (ℕ → Bool) → ℕ → Db → Option Job × Db
unfolding select_next_job
claim_next_job locked now db = claim now (select_next_job locked db) db

-- `job_type in job_types`.
abbrev pub type_in : List JobType → JobType → Bool
type_in [] t = false
type_in (u ∷ us) t = same_type u t || type_in us t

abbrev pub is_due_for : (ℕ → Bool) → ℕ → List JobType → Job → Bool
is_due_for locked meter_id types job =
    is_queued job
    && (not (locked job.id) && (job.meter_id == meter_id && type_in types job.job_type))

abbrev pub due_for : (ℕ → Bool) → ℕ → List JobType → Db → List Job
due_for locked meter_id types db = where_rows (is_due_for locked meter_id types) db.jobs

-- Each job of the list is written back.
unfoldable pub put_jobs : List Job → Db → Db
put_jobs [] db = db
put_jobs (job ∷ jobs) db = put_jobs jobs (put_job job db)

unfoldable pub claim_all : ℕ → List Job → Db → List Job × Db
unfolding put_jobs
claim_all now jobs db = (map_rows (claimed now) jobs, put_jobs (map_rows (claimed now) jobs) db)

abbrev pub priority_or : List Job → List Job → List Job
priority_or [] others = others
priority_or (job ∷ jobs) others = job ∷ jobs

unfoldable pub select_due_jobs : (ℕ → Bool) → ℕ → List JobType → ℕ → Db → List Job
select_due_jobs locked meter_id types limit db =
    priority_or
      (take limit
        (order_by earlier (due_for locked meter_id (where_rows is_priority_type types) db)))
      (take limit (order_by by_tier (due_for locked meter_id types db)))

unfoldable pub claim_due_jobs_for_meter : (ℕ → Bool) → ℕ → ℕ → List JobType → ℕ → Db → List Job × Db
unfolding select_due_jobs claim_all
claim_due_jobs_for_meter locked now meter_id types limit db =
    claim_all now (select_due_jobs locked meter_id types limit db) db
