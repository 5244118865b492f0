-- ===== src/Backend/Trigger.antt =====
-- backend/app/services/scheduler.py, `_trigger_one` and `_run_once`: a due schedule starts a run with
-- one job for each pair of a meter and a payload.
pub mod Pairs
pub mod Fresh
use rise_sun.Common.{ℕ, suc, List, [], ◌∷◌, ◌++◌, Bool, true, false, Option, none, some, ◌==◌, ◌&&◌}
use rise_sun.Common.{if◌then◌else◌, length}
use Prim.Native.String.{String}
use rise_sun.Backend.Jobs.{
  Job, JobType, JobStatus, queued, Payload, read_current, read_load_profile, read_rated_current,
}
use rise_sun.Backend.Db.{Db, Meter, ScheduledJob, ScheduledJobRun, run_running}
use rise_sun.Backend.Tables.{where_rows, map_rows, distinct, update_rows}
use rise_sun.Backend.Calls.{Env}
use rise_sun.Backend.Scheduler.{
  is_due, resolve_payloads, without, free_meters, all_pairs, unread_pairs, first_payload,
  already_succeeded_today_meter_ids, ids_of,
}

-- The branches on the type and `skip_if_read_today`.
unfoldable pub pairs_for :
    Env → ℕ → Db → ScheduledJob → List Meter → List Payload → List (Meter × Payload)
pairs_for env now db s meters payloads = elim s.job_type [
  | read_current ↦
      if s.operation_params.skip_if_read_today
      then unread_pairs env now db meters payloads
      else all_pairs meters payloads
  | read_load_profile ↦
      if s.operation_params.skip_if_read_today
      then all_pairs
          (without (already_succeeded_today_meter_ids env now db (ids_of meters) s.job_type) meters)
          payloads
      else all_pairs meters payloads
  | read_rated_current ↦ first_payload meters payloads
  | other ↦ all_pairs meters payloads
]

abbrev pub new_job : ℕ → ℕ → JobType → ℕ → ℕ → Payload → Job
new_job now key job_type run_id meter_id payload = record {
  id = key;
  job_type = job_type;
  meter_id = meter_id;
  status = queued;
  payload = payload;
  result = none;
  error = none;
  created_by_id = none;
  created_at = now;
  started_at = none;
  finished_at = none;
  scheduled_job_run_id = some run_id;
}

-- `db.add(Job(...))`: the key is the next of its sequence.
abbrev pub add_job : Job → Db → Db
add_job job db = record db { jobs = job ∷ db.jobs; next_job = suc db.next_job }

unfoldable pub add_jobs : ℕ → JobType → ℕ → List (Meter × Payload) → Db → Db
add_jobs now job_type run_id [] db = db
add_jobs now job_type run_id ((meter, payload) ∷ pairs) db =
    add_jobs now job_type run_id pairs
      (add_job (new_job now db.next_job job_type run_id meter.id payload) db)

abbrev pub new_run : ℕ → ℕ → ℕ → ScheduledJobRun
new_run key schedule total = record {
  id = key;
  scheduled_job_id = schedule;
  status = run_running;
  meters_total = total;
  meters_succeeded = 0;
  meters_failed = 0;
  finished_at = none;
}

abbrev pub add_run : ℕ → ℕ → Db → Db
add_run schedule total db = record db {
  runs = new_run db.next_run schedule total ∷ db.runs;
  next_run = suc db.next_run;
}

-- `scheduled_job.last_run_at = now`.
abbrev pub set_last_run : ℕ → ScheduledJob → Db → Db
set_last_run now s db = record db {
  scheduled_jobs =
      update_rows (λ t. t.id == s.id) (λ t. record t { last_run_at = some now }) db.scheduled_jobs;
}

abbrev pub pair_ids : List (Meter × Payload) → List ℕ
pair_ids pairs = map_rows (λ p. (p.0).id) pairs

unfoldable pub start_run : ℕ → ScheduledJob → List (Meter × Payload) → Db → Db
unfolding add_jobs
start_run now s [] db = set_last_run now s db
start_run now s (pair ∷ pairs) db =
    add_jobs now s.job_type db.next_run (pair ∷ pairs)
      (add_run s.id (length (distinct (pair_ids (pair ∷ pairs)))) (set_last_run now s db))

-- Without a payload the pairs are empty, and only `last_run_at` is set, as in the source.
unfoldable pub trigger_pairs : Env → (ℕ → String) → ℕ → Db → ScheduledJob → List (Meter × Payload)
unfolding free_meters pairs_for resolve_payloads
trigger_pairs env local_iso now db s =
    pairs_for env now db s (free_meters db s) (resolve_payloads env local_iso now db s)

unfoldable pub trigger_one : Env → (ℕ → String) → ℕ → ScheduledJob → Db → Db
unfolding trigger_pairs start_run
trigger_one env local_iso now s db = start_run now s (trigger_pairs env local_iso now db s) db

-- `_run_once`: the due schedules are chosen first, and triggered one after the other.
unfoldable pub trigger_all : Env → (ℕ → String) → ℕ → List ScheduledJob → Db → Db
unfolding trigger_one
trigger_all env local_iso now [] db = db
trigger_all env local_iso now (s ∷ rest) db =
    trigger_all env local_iso now rest (trigger_one env local_iso now s db)

abbrev pub due_schedules : (String → ℕ → Option ℕ) → ℕ → Db → List ScheduledJob
due_schedules next_fire now db =
    where_rows (λ s. s.is_enabled && is_due next_fire s now) db.scheduled_jobs

unfoldable pub run_once : Env → (ℕ → String) → (String → ℕ → Option ℕ) → ℕ → Db → Db
unfolding trigger_all
run_once env local_iso next_fire now db =
    trigger_all env local_iso now (due_schedules next_fire now db) db
