-- ===== src/Backend/Handlers.antt =====
-- backend/app/services/job_worker.py: the handlers `_run_*` of `_JOB_HANDLERS` for readings, relays
-- and load profiles.
pub mod Rows
pub mod Streams
pub mod Replay
use rise_sun.Common.{ℕ, suc, ◌%◌, ℤ, List, ◌∷◌, [], ◌++◌, Bool, true, false, not, ltb, ◌==◌}
use rise_sun.Common.{Option, none, some, if◌then◌else◌, ◌&&◌, ◌||◌}
use Prim.Native.String.{String}
use text.Mathlib.Text.{◌==◌ as str_eq}
use rise_sun.Backend.Jobs.{Job, JobType, JsonValue, JobError, rows_written, bare_error}
use rise_sun.Backend.Db.{Db, Meter, LoadProfileData, get_meter, put_job}
use rise_sun.Backend.Tables.{any}
use rise_sun.Backend.Calls.{
  Env, GatewayClient, Attempt, done, raised, ◌>>=◌, or_raise, or_default, CallTarget, target_of,
  ReadResult, WriteResult, LoadProfileRow, StreamEnd, exhausted, broken, profile_error,
}
use rise_sun.Backend.Outcomes.{
  failed_with, finalize_read_current_job, finalize_read_rated_current_job, rated_current_obis,
  relay_state_obis, finalize_read_load_profile_job, finalize_disconnect_job,
}

-- The first lines of every handler: the job fails where its meter is gone.
abbrev pub with_meter : ℕ → Job → Db → (Meter → Attempt Db) → Option Meter → Attempt Db
with_meter now job db handle none =
    done (put_job (failed_with (bare_error "METER_NOT_FOUND") now job) db)
with_meter now job db handle (some meter) = handle meter

-- `payload.get("obis") or DEFAULT_LOAD_PROFILE_OBIS`: an empty text counts as none.
abbrev pub default_obis : Option String → String
default_obis none = "1.1.63.1.0.ff"
default_obis (some obis) = if str_eq obis "" then "1.1.63.1.0.ff" else obis

abbrev pub is_row : LoadProfileData → LoadProfileData → Bool
is_row new row =
    row.meter_id == new.meter_id
    && (str_eq row.obis_code new.obis_code && row.timestamp == new.timestamp)

-- `ON CONFLICT DO NOTHING` on meter, OBIS code and timestamp.
unfoldable pub insert_load_profile_row : LoadProfileData → Db → Db
insert_load_profile_row new db =
    if any (is_row new) db.load_profile
    then db
    else record db { load_profile = new ∷ db.load_profile }

abbrev pub profile_row : ℕ → String → ℕ → List JsonValue → ℕ → LoadProfileData
profile_row meter_id obis job_id values timestamp = record {
  meter_id = meter_id;
  obis_code = obis;
  timestamp = timestamp;
  values_json = values;
  job_id = job_id;
}

-- `_insert_load_profile_row`: a timestamp that is no ISO text raises.
unfoldable pub insert_row_at : Env → ℕ → String → ℕ → LoadProfileRow → Db → Attempt Db
unfolding insert_load_profile_row
insert_row_at env meter_id obis job_id row db = do
  timestamp ← or_raise db (env.fromisoformat row.timestamp_iso)
  done (insert_load_profile_row (profile_row meter_id obis job_id row.values timestamp) db)

-- The rows one after the other.
unfoldable pub insert_rows : Env → ℕ → String → ℕ → List LoadProfileRow → Db → Attempt Db
unfolding insert_row_at
insert_rows env meter_id obis job_id [] db = done db
insert_rows env meter_id obis job_id (row ∷ rows) db = do
  next ← insert_row_at env meter_id obis job_id row db
  insert_rows env meter_id obis job_id rows next

-- `error_info` where the stream ends with a `LoadProfileError`.
abbrev pub partial_error : ℕ → Option String → Bool → JobError
partial_error written code is_partial = record {
  code = code;
  is_partial = some (is_partial || ltb 0 written);
}

-- `_LOAD_PROFILE_COMMIT_BATCH`: after each twentieth row the count is committed with the rows.
abbrev pub commit_batch : ℕ
commit_batch = 20

abbrev pub commit_count : Job → String → ℕ → Db → Db
commit_count job obis written db =
    if written % commit_batch == 0
    then put_job (record job { result = some (rows_written obis written) }) db
    else db

-- The loop over the stream, with the number of rows before it.
unfoldable pub store_rows : Env → Job → ℕ → String → ℕ → List LoadProfileRow → Db → Attempt (ℕ × Db)
unfolding insert_row_at
store_rows env job meter_id obis written [] db = done (written, db)
store_rows env job meter_id obis written (row ∷ rows) db = do
  next ← insert_row_at env meter_id obis job.id row db
  store_rows env job meter_id obis (suc written) rows (commit_count job obis (suc written) next)

module _ (env : Env) (client : GatewayClient) (now : ℕ) where
  unfoldable pub run_read_current : Job → Db → Attempt Db
  run_read_current job db = with_meter now job db handle (get_meter db job.meter_id)
    where
      handle : Meter → Attempt Db
      handle meter = do
        obis ← or_raise db job.payload.obis
        target ← target_of env db meter
        outcome ← or_raise db (client.read_register target obis (or_default job.payload.class_id 0))
        done (finalize_read_current_job now job meter outcome obis db)

  unfoldable pub run_read_rated_current : Job → Db → Attempt Db
  run_read_rated_current job db = with_meter now job db handle (get_meter db job.meter_id)
    where
      handle : Meter → Attempt Db
      handle meter = do
        target ← target_of env db meter
        outcome ← or_raise db (client.read_register target rated_current_obis 0)
        done (finalize_read_rated_current_job now job meter outcome db)

  unfoldable pub run_read_relay_state : Job → Db → Attempt Db
  run_read_relay_state job db = with_meter now job db handle (get_meter db job.meter_id)
    where
      handle : Meter → Attempt Db
      handle meter = do
        target ← target_of env db meter
        outcome ← or_raise db (client.read_register target relay_state_obis 1)
        done (finalize_read_current_job now job meter outcome relay_state_obis db)

  -- What follows the last row.
  abbrev pub after_rows : Job → Meter → String → StreamEnd → ℕ × Db → Attempt Db
  after_rows job meter obis exhausted (written, db) =
      done (finalize_read_load_profile_job now job meter obis written none db)
  after_rows job meter obis (profile_error code is_partial) (written, db) = done (
      finalize_read_load_profile_job now job meter obis written
        (some (partial_error written code is_partial)) db)
  after_rows job meter obis broken (written, db) = raised db

  unfoldable pub run_read_load_profile : Job → Db → Attempt Db
  unfolding store_rows
  run_read_load_profile job db = with_meter now job db handle (get_meter db job.meter_id)
    where
      stored : Meter → String → List LoadProfileRow × StreamEnd → Attempt Db
      stored meter obis stream =
          store_rows env job meter.id obis 0 stream.0 db >>= after_rows job meter obis stream.1

      handle : Meter → Attempt Db
      handle meter = do
        target ← target_of env db meter
        from_iso ← or_raise db job.payload.from_iso
        to_iso ← or_raise db job.payload.to_iso
        stored meter (default_obis job.payload.obis)
            (client.read_load_profile target (default_obis job.payload.obis) from_iso to_iso)

  -- `_run_disconnect` and `_run_reconnect` give the operation.
  unfoldable pub run_disconnect_operation : JobType → Job → Db → Attempt Db
  run_disconnect_operation operation job db =
      with_meter now job db handle (get_meter db job.meter_id)
    where
      handle : Meter → Attempt Db
      handle meter = do
        target ← target_of env db meter
        outcome ← or_raise db (client.disconnect_meter target operation)
        done (finalize_disconnect_job now job meter operation outcome.ok outcome.error_code db)
