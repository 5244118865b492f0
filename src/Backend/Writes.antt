-- ===== src/Backend/Writes.antt =====
-- backend/app/services/job_worker.py, `_run_write_datetime` and `_run_write_parameter`, with the
-- registry of backend/app/services/write_parameters.py.
pub mod Rows
use rise_sun.Common.{ℕ, ℤ, pos, negsuc, List, ◌∷◌, [], ◌++◌, Bool, true, false, not, ltb, ◌%◌}
use rise_sun.Common.{Option, none, some, if◌then◌else◌, ◌&&◌, ◌||◌}
use Prim.Native.String.{String}
use text.Mathlib.Text.{◌==◌ as str_eq}
use rise_sun.Backend.Jobs.{
  Job, JobStatus, succeeded, failed, JsonValue, JobError, parameters_written, parameter_written,
  bare_error,
}
use rise_sun.Backend.Db.{meter_object}
use rise_sun.Backend.Db.{Db, Meter, ParameterWriteHistory, AuditLog, get_meter, put_job}
use rise_sun.Backend.Calls.{
  Env, GatewayClient, Attempt, done, raised, ◌>>=◌, or_raise, CallTarget, target_of, ReadResult,
  WriteResult,
}
use rise_sun.Backend.Outcomes.{record_audit, failed_with}
use rise_sun.Backend.Handlers.{with_meter}
use rise_sun.DataTypes.Date.{DateTime, isoweekday}

-- What is written: the parameter, its OBIS code and class, and the bytes of the value.
pub record Entry : Type 0 where
  pub parameter : String
  pub obis : String
  pub class_id : ℕ
  pub value_bytes : List ℕ

abbrev pub data_class_id : ℕ
data_class_id = 1

abbrev pub datetime_entries : DateTime → List Entry
datetime_entries now =
    record {
      parameter = "datetime.time";
      obis = "1.0.0.9.1.ff";
      class_id = data_class_id;
      value_bytes = now.hour ∷ now.minute ∷ now.second ∷ [];
    }
    ∷ record {
      parameter = "datetime.date";
      obis = "1.0.0.9.2.ff";
      class_id = data_class_id;
      value_bytes = now.year % 100 ∷ now.month ∷ now.day ∷ isoweekday now ∷ [];
    }
    ∷ []

-- `WRITABLE_INT_PARAMETERS[parameter]`, the OBIS code; the class is 1 for each.
abbrev pub writable_obis : String → Option String
writable_obis parameter =
    if str_eq parameter "settlement_no"
    then some "1.0.0.1.0.ff"
    else if str_eq parameter "available_settlement_no"
    then some "1.0.0.1.1.ff"
    else if str_eq parameter "load_profile_interval"
    then some "1.0.0.8.4.ff"
    else if str_eq parameter "display_mode_count"
    then some "1.0.60.34.1.ff"
    else if str_eq parameter "weekend_rate_type"
    then some "1.0.60.36.8.ff"
    else none

-- `bytes([value])` raises outside 0..255.
abbrev pub value_byte : ℤ → Option (List ℕ)
value_byte (pos n) = if ltb n 256 then some (n ∷ []) else none
value_byte (negsuc n) = none

abbrev pub integer_entry : String → String → List ℕ → Entry
integer_entry parameter obis value_bytes = record {
  parameter = parameter;
  obis = obis;
  class_id = data_class_id;
  value_bytes = value_bytes;
}

-- `old_read.value if old_read.ok else None`.
abbrev old_value_of : ReadResult → Option JsonValue
old_value_of old_read = if old_read.ok then some old_read.value else none

abbrev history_line : Job → Meter → Entry → ReadResult → WriteResult → ParameterWriteHistory
history_line job meter entry old_read outcome = record {
  user_id = job.created_by_id;
  meter_id = meter.id;
  parameter = entry.parameter;
  obis_code = entry.obis;
  old_value = old_value_of old_read;
  new_value = entry.value_bytes;
  success = outcome.ok;
  job_id = job.id;
}

abbrev write_audit : Job → Meter → WriteResult → AuditLog
write_audit job meter outcome = record {
  user_id = job.created_by_id;
  source = "system";
  action = "meter.write_parameter";
  object_id = meter_object meter.id;
  success = outcome.ok;
}

-- The line of the history, and that of the audit.
abbrev pub log_write : Job → Meter → Entry → ReadResult → WriteResult → Db → Db
log_write job meter entry old_read outcome db =
    record_audit (write_audit job meter outcome) (record db {
      write_history = history_line job meter entry old_read outcome ∷ db.write_history;
    })

module _ (client : GatewayClient) (job : Job) (meter : Meter) (target : CallTarget) where
  -- The old value is read, whatever comes of it, then the new one is written and both are logged.
  abbrev pub write_entry : Entry → Db → Attempt (WriteResult × Db)
  write_entry entry db = do
    old_read ← or_raise db (client.read_register target entry.obis entry.class_id)
    outcome ← or_raise db (client.write_register target entry.obis entry.class_id entry.value_bytes)
    done (outcome, log_write job meter entry old_read outcome db)

  -- The entry with whether it was written, in front of those of the rest.
  abbrev pub noted :
      Entry → WriteResult → List (String × Bool) × Db → Attempt (List (String × Bool) × Db)
  noted entry outcome (results, db) = done ((entry.parameter, outcome.ok) ∷ results, db)

  abbrev pub then_entries :
      Entry
      → (Db → Attempt (List (String × Bool) × Db))
      → WriteResult × Db
      → Attempt (List (String × Bool) × Db)
  then_entries entry rest (outcome, db) = rest db >>= noted entry outcome

  unfoldable pub write_entries : List Entry → Db → Attempt (List (String × Bool) × Db)
  write_entries [] db = done ([], db)
  write_entries (entry ∷ entries) db =
      write_entry entry db >>= then_entries entry (write_entries entries)

unfoldable pub all_written : List (String × Bool) → Bool
all_written [] = true
all_written ((parameter, ok) ∷ results) = ok && all_written results

unfoldable pub end_write_datetime : ℕ → Job → List (String × Bool) × Db → Db
unfolding all_written
end_write_datetime now job (results, db) =
    put_job
      (if all_written results
        then record job {
          status = succeeded;
          result = some (parameters_written results);
          finished_at = some now;
        }
        else failed_with (bare_error "WRITE_FAILED") now
            (record job { result = some (parameters_written results) }))
      db

abbrev pub end_write_parameter : ℕ → Job → String → ℤ → WriteResult × Db → Db
end_write_parameter now job parameter value (outcome, db) =
    put_job
      (if outcome.ok
        then record job {
          status = succeeded;
          result = some (parameter_written parameter value true);
          finished_at = some now;
        }
        else failed_with (record { code = outcome.error_code; is_partial = none }) now
            (record job { result = some (parameter_written parameter value false) }))
      db

module _ (env : Env) (client : GatewayClient) (now : ℕ) where
  unfoldable pub run_write_datetime : Job → Db → Attempt Db
  unfolding write_entries end_write_datetime
  run_write_datetime job db = with_meter now job db handle (get_meter db job.meter_id)
    where
      handle : Meter → Attempt Db
      handle meter = do
        target ← target_of env db meter
        written ← write_entries client job meter target (datetime_entries (env.utc_parts now)) db
        done (end_write_datetime now job written)

  unfoldable pub run_write_parameter : Job → Db → Attempt Db
  run_write_parameter job db = with_meter now job db handle (get_meter db job.meter_id)
    where
      handle : Meter → Attempt Db
      handle meter = do
        parameter ← or_raise db job.payload.parameter
        value ← or_raise db job.payload.value
        obis ← or_raise db (writable_obis parameter)
        target ← target_of env db meter
        value_bytes ← or_raise db (value_byte value)
        outcome ← write_entry client job meter target (integer_entry parameter obis value_bytes) db
        done (end_write_parameter now job parameter value outcome)
