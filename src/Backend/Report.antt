-- ===== src/Backend/Report.antt =====
-- backend/app/api/gateway_internal.py: what the gateway asks for when a meter calls, and what it
-- reports. `now` is the time of a request.
pub mod Rows
pub mod Again
use rise_sun.Common.{ℕ, suc, List, [], ◌∷◌, Bool, true, false, Option, none, some, ltb, ◌==◌, not}
use rise_sun.Common.{◌&&◌, ◌||◌, if◌then◌else◌, length}
use Prim.Native.String.{String}
use text.Mathlib.Text.{◌==◌ as str_eq}
use rise_sun.Backend.Jobs.{
  Job, JobType, JsonValue, JobError, is_running, read_current, write_datetime, write_parameter,
  read_load_profile, disconnect, reconnect, read_rated_current, read_relay_state, other_type,
}
use rise_sun.Backend.Db.{Db, Meter, MeterStatus, active, get_job}
use rise_sun.Backend.Tables.{find_row}
use rise_sun.Backend.Calls.{
  Env, Attempt, done, raised, ◌>>=◌, ReadResult, LoadProfileRow, or_default,
}
use rise_sun.Backend.Outcomes.{
  finalize_read_current_job, finalize_read_rated_current_job, finalize_disconnect_job,
  finalize_read_load_profile_job,
}
use rise_sun.Backend.Finalizers.{maybe_finalize_disconnect_batch_item}
use rise_sun.Backend.Handlers.{insert_rows, partial_error}
use rise_sun.Backend.Worker.{finalize_own_run}
use rise_sun.Backend.Queue.{claim_due_jobs_for_meter}

abbrev pub meter_by_serial : Db → String → Option Meter
meter_by_serial db serial = find_row (λ m. str_eq m.serial_number serial) db.meters

abbrev is_some {ℓ} : {A : Type ℓ} → Option A → Bool
is_some none = false
is_some (some a) = true

abbrev is_active_status : MeterStatus → Bool
is_active_status active = true
is_active_status _ = false

-- The meters whose jobs are given out when they call.
abbrev pub may_claim : Meter → Bool
may_claim meter =
    meter.is_call_home
    && (meter.is_active
        && (is_active_status meter.status
            && (is_some meter.protocol_profile && is_some meter.password_encrypted)))

-- `body.max_jobs or gateway_internal_claim_batch_max`: 0 counts as none.
abbrev limit_of : ℕ → Option ℕ → ℕ
limit_of batch_max none = batch_max
limit_of batch_max (some n) = if n == 0 then batch_max else n

abbrev claim_for : (ℕ → Bool) → ℕ → List JobType → ℕ → Option Meter → Db → Option (List Job) × Db
claim_for locked now types limit none db = (none, db)
claim_for locked now types limit (some meter) db =
    if may_claim meter
    then (
      some (claim_due_jobs_for_meter locked now meter.id types limit db).0,
      (claim_due_jobs_for_meter locked now meter.id types limit db).1,
    )
    else (none, db)

abbrev serial_in : String → List String → Bool
serial_in serial [] = false
serial_in serial (s ∷ rest) = str_eq s serial || serial_in serial rest

-- The settings `immediate_read_enabled` and `immediate_read_allowed_serials`: an empty list allows
-- every meter.
abbrev is_allowed : Bool → List String → String → Bool
is_allowed enabled [] serial = enabled
is_allowed enabled (s ∷ rest) serial = enabled && serial_in serial (s ∷ rest)

-- `claim_due_jobs` up to the response, which lists the claimed jobs: `none` is `meter_found=False`.
unfoldable pub claim_due_jobs :
    Bool
    → List String
    → ℕ
    → (ℕ → Bool)
    → ℕ
    → String
    → List JobType
    → Option ℕ
    → Db
    → Option (List Job) × Db
claim_due_jobs enabled serials batch_max locked now serial types max_jobs db =
    if is_allowed enabled serials serial
    then claim_for locked now types (limit_of batch_max max_jobs) (meter_by_serial db serial) db
    else (none, db)

-- One reported result.
pub record JobResultItem : Type 0 where
  pub job_id : ℕ
  pub obis : String
  pub outcome : ReadResult

-- The job that a report is accepted for: one of this meter that is still running.
abbrev pub is_reportable : Meter → Job → Bool
is_reportable meter job = job.meter_id == meter.id && is_running job

abbrev settle_reported : ℕ → Option Job → Db → Db
settle_reported now none db = db
settle_reported now (some job) db = maybe_finalize_disconnect_batch_item now job db

abbrev finish_operation : ℕ → Job → Meter → JobType → ReadResult → Db → Db
finish_operation now job meter operation outcome db =
    let ended = finalize_disconnect_job now job meter operation outcome.ok outcome.error_code db in
    settle_reported now (get_job ended job.id) ended

-- The chain on the type of the job: `none` is a result that is skipped.
unfoldable pub finish_reported : ℕ → Job → Meter → JobResultItem → JobType → Db → Option Db
finish_reported now job meter item read_current db =
    some (finalize_read_current_job now job meter item.outcome item.obis db)
finish_reported now job meter item read_rated_current db =
    some (finalize_read_rated_current_job now job meter item.outcome db)
finish_reported now job meter item read_relay_state db =
    some (finalize_read_current_job now job meter item.outcome item.obis db)
finish_reported now job meter item disconnect db =
    some (finish_operation now job meter disconnect item.outcome db)
finish_reported now job meter item reconnect db =
    some (finish_operation now job meter reconnect item.outcome db)
finish_reported now job meter item other db = none

-- The numbers of results accepted and skipped so far, and the database.
pub record Report : Type 0 where
  pub accepted : ℕ
  pub skipped : ℕ
  pub db : Db

abbrev pub skip : Report → Report
skip r = record r { skipped = suc r.skipped }

abbrev pub accept_with : ℕ → Job → Report → Option Db → Report
accept_with now job r none = skip r
accept_with now job r (some db) = record r {
  accepted = suc r.accepted;
  db = finalize_own_run now job.scheduled_job_run_id db;
}

abbrev pub report_to : ℕ → Meter → JobResultItem → Report → Option Job → Report
report_to now meter item r none = skip r
report_to now meter item r (some job) =
    if is_reportable meter job
    then accept_with now job r (finish_reported now job meter item job.job_type r.db)
    else skip r

-- The meter was read once, before the loop; the session keeps it up to date.
abbrev pub current_meter : Meter → Db → Meter
current_meter meter db = or_default (find_row (λ m. m.id == meter.id) db.meters) meter

unfoldable pub report_one : ℕ → Meter → JobResultItem → Report → Report
unfolding finish_reported
report_one now meter item r =
    report_to now (current_meter meter r.db) item r (get_job r.db item.job_id)

unfoldable pub report_all : ℕ → Meter → List JobResultItem → Report → Report
unfolding report_one
report_all now meter [] r = r
report_all now meter (item ∷ items) r = report_all now meter items (report_one now meter item r)

unfoldable pub report_for : ℕ → Option Meter → List JobResultItem → Db → Report
unfolding report_all
report_for now none items db = record { accepted = 0; skipped = length items; db = db }
report_for now (some meter) items db =
    report_all now meter items (record { accepted = 0; skipped = 0; db = db })

unfoldable pub report_job_results : ℕ → String → List JobResultItem → Db → Report
unfolding report_for
report_job_results now serial items db = report_for now (meter_by_serial db serial) items db

-- The body of a report of a load profile.
pub record ProfileReport : Type 0 where
  pub job_id : ℕ
  pub obis : String
  pub ok : Bool
  pub rows : List LoadProfileRow
  pub code : Option String
  pub is_partial : Bool

abbrev pub report_error : ProfileReport → Option JobError
report_error body =
    if body.ok then none else some (partial_error (length body.rows) body.code body.is_partial)

-- The response `accepted`, with the database. An exception leaves the transaction uncommitted.
abbrev pub profile_ended : ℕ → Db → Job → Meter → ProfileReport → Attempt Db → Bool × Db
profile_ended now before job meter body (raised db) = (false, before)
profile_ended now before job meter body (done db) = (
  true,
  finalize_own_run now job.scheduled_job_run_id (
      finalize_read_load_profile_job now job meter body.obis (length body.rows) (report_error body)
        db),
)

abbrev pub profile_for : Env → ℕ → ProfileReport → Option Meter → Option Job → Db → Bool × Db
profile_for env now body (some meter) (some job) db =
    if is_reportable meter job
    then profile_ended now db job meter body
        (insert_rows env meter.id body.obis job.id body.rows db)
    else (false, db)
profile_for env now body _ _ db = (false, db)

unfoldable pub report_load_profile_results : Env → ℕ → String → ProfileReport → Db → Bool × Db
report_load_profile_results env now serial body db =
    profile_for env now body (meter_by_serial db serial) (get_job db body.job_id) db
