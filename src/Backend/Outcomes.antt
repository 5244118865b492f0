-- ===== src/Backend/Outcomes.antt =====
-- backend/app/services/job_worker.py: the functions that end a job with the outcome of a call, for
-- the worker and for the gateway's reports.
pub mod Rows
use rise_sun.Common.{ℕ, ◌+◌, ◌-◌, ℤ, pos, negsuc, List, ◌∷◌, [], Bool, true, false, not, ltb}
use rise_sun.Common.{Option, none, some, if◌then◌else◌, ◌&&◌, ◌||◌}
use Prim.Native.String.{String, ◌++◌ as ◌<>◌}
use text.Mathlib.Text.{◌==◌ as str_eq}
use rise_sun.Backend.Jobs.{
  Job, JobType, JobStatus, JsonValue, JobError, queued, running, succeeded, failed, boolean, number,
  value_read, rated_current, rows_written, operation_done, bare_error, whole_error, type_name,
}
use rise_sun.Backend.Db.{meter_object}
use rise_sun.Backend.Db.{Db, Meter, MeterReading, AuditLog, put_job, put_meter}
use rise_sun.Backend.Calls.{ReadResult, or_default}

-- `code == "NO_CONNECTION_YET"`, where the code may be `None`.
abbrev pub no_connection_yet : Option String → Bool
no_connection_yet none = false
no_connection_yet (some code) = str_eq code "NO_CONNECTION_YET"

-- Back to the queue, for the next time that the meter calls.
abbrev pub requeued : Job → Job
requeued job = record job { status = queued; started_at = none }

abbrev pub failed_with : JobError → ℕ → Job → Job
failed_with error now job = record job {
  status = failed;
  error = some error;
  finished_at = some now;
}

abbrev pub outcome_error : ReadResult → JobError
outcome_error outcome = record { code = outcome.error_code; is_partial = some outcome.is_partial }

abbrev new_reading : Meter → String → ReadResult → ℕ → MeterReading
new_reading meter obis outcome now = record {
  meter_id = meter.id;
  obis_code = obis;
  value_json = outcome.value;
  read_at = now;
}

unfoldable pub finalize_read_current_job : ℕ → Job → Meter → ReadResult → String → Db → Db
finalize_read_current_job now job meter outcome obis db =
    if outcome.ok
    then put_job
        (record job {
          status = succeeded;
          result = some (value_read obis outcome.value);
          finished_at = some now;
        })
        (put_meter (record meter { last_seen_at = some now; last_read_at = some now })
          (record db { readings = new_reading meter obis outcome now ∷ db.readings }))
    else if no_connection_yet outcome.error_code
    then put_job (requeued job) db
    else put_job (failed_with (outcome_error outcome) now job) db

abbrev pub rated_current_obis : String
rated_current_obis = "1.1.0.6.3.ff"

abbrev pub relay_state_obis : String
relay_state_obis = "0.0.60.a.1.ff"

-- `isinstance(value, (int, float))`: `bool` is an `int` too.
abbrev pub as_number : JsonValue → Option ℤ
as_number (number n) = some n
as_number (boolean true) = some (pos 1000)
as_number (boolean false) = some (pos 0)
as_number _ = none

-- `abs(value - valid) < 0.01`, in thousandths.
abbrev near : ℕ → ℤ → Bool
near valid (pos n) = ltb (n - valid) 10 && ltb (valid - n) 10
near valid (negsuc n) = false

unfoldable pub is_valid_rated_current : ℤ → Bool
is_valid_rated_current value = near 5000 value || (near 7500 value || near 100000 value)

-- The branches of a successful reading, on the number that it is.
unfoldable pub rated_current_read : ℕ → Job → Meter → Option ℤ → JsonValue → Db → Db
unfolding is_valid_rated_current
rated_current_read now job meter none value db =
    put_job (failed_with (whole_error "UNEXPECTED_VALUE_TYPE") now job) db
rated_current_read now job meter (some amps) value db =
    if is_valid_rated_current amps
    then put_job
        (record job {
          status = succeeded;
          result = some (rated_current rated_current_obis value);
          finished_at = some now;
        })
        (put_meter (record meter { rated_current_amps = some amps; last_seen_at = some now }) db)
    else put_job (failed_with (whole_error "IMPLAUSIBLE_RATED_CURRENT") now job)
        (put_meter (record meter { last_seen_at = some now }) db)

unfoldable pub finalize_read_rated_current_job : ℕ → Job → Meter → ReadResult → Db → Db
unfolding rated_current_read
finalize_read_rated_current_job now job meter outcome db =
    if outcome.ok
    then rated_current_read now job meter (as_number outcome.value) outcome.value db
    else if no_connection_yet outcome.error_code
    then put_job (requeued job) db
    else put_job (failed_with (outcome_error outcome) now job) db

-- The branches on `error_info`; the result is set in each.
abbrev load_profile_ended : ℕ → Job → Meter → Option JobError → Db → Db
load_profile_ended now job meter none db =
    put_job (record job { status = succeeded; finished_at = some now })
      (put_meter (record meter { last_seen_at = some now }) db)
load_profile_ended now job meter (some error) db =
    if no_connection_yet error.code
    then put_job (requeued job) db
    else put_job (failed_with error now job) db

unfoldable pub finalize_read_load_profile_job :
    ℕ → Job → Meter → String → ℕ → Option JobError → Db → Db
finalize_read_load_profile_job now job meter obis written error_info db =
    load_profile_ended now (record job { result = some (rows_written obis written) }) meter
      error_info db

-- `record_audit`: one more line of the log.
abbrev pub record_audit : AuditLog → Db → Db
record_audit line db = record db { audit_log = line ∷ db.audit_log }

abbrev operation_action : JobType → String
operation_action operation = "meter." <> type_name operation

abbrev operation_audit : Job → Meter → JobType → Bool → AuditLog
operation_audit job meter operation ok = record {
  user_id = job.created_by_id;
  source = or_default job.payload.source "web";
  action = operation_action operation;
  object_id = meter_object meter.id;
  success = ok;
}

unfoldable pub finalize_disconnect_job : ℕ → Job → Meter → JobType → Bool → Option String → Db → Db
finalize_disconnect_job now job meter operation ok code db =
    record_audit (operation_audit job meter operation ok) (
      put_job
        (if ok
          then record job {
            status = succeeded;
            result = some (operation_done operation true);
            finished_at = some now;
          }
          else record job {
            status = failed;
            result = some (operation_done operation false);
            error = some (record { code = code; is_partial = none });
            finished_at = some now;
          })
        db)
