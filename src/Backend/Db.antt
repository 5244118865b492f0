-- ===== src/Backend/Db.antt =====
-- backend/app/models.py: the rows of the other tables that the workers touch, and the database that
-- holds them. Rows are found by their primary keys; columns that no operation here reads or writes
-- are left out.
use rise_sun.Common.{ℕ, ℤ, List, Bool, Option, ◌==◌}
use Prim.Native.String.{String}
use rise_sun.Backend.Jobs.{Job, JobType, JsonValue}
use rise_sun.Backend.Tables.{find_row, update_rows}

pub data MeterStatus : Type 0 where
  installed active : MeterStatus

-- `grpc_target` is that of the meter's gateway, if it has one.
pub record Meter : Type 0 where
  pub id : ℕ
  pub serial_number : String
  pub ip_address : Option String
  pub port : Option ℕ
  pub is_call_home : Bool
  pub protocol_profile : Option String
  pub password_encrypted : Option (List ℕ)
  pub is_active : Bool
  pub status : MeterStatus
  pub grpc_target : Option String
  pub last_seen_at : Option ℕ
  pub last_read_at : Option ℕ
  pub is_low_consumption : Bool
  pub rated_current_amps : Option ℤ
  pub res_name : Option String

pub record MeterReading : Type 0 where
  pub meter_id : ℕ
  pub obis_code : String
  pub value_json : JsonValue
  pub read_at : ℕ

pub record LoadProfileData : Type 0 where
  pub meter_id : ℕ
  pub obis_code : String
  pub timestamp : ℕ
  pub values_json : List JsonValue
  pub job_id : ℕ

pub data ScheduledJobRunStatus : Type 0 where
  run_running run_succeeded partial_failure run_failed : ScheduledJobRunStatus

pub record ScheduledJobRun : Type 0 where
  pub id : ℕ
  pub scheduled_job_id : ℕ
  pub status : ScheduledJobRunStatus
  pub meters_total : ℕ
  pub meters_succeeded : ℕ
  pub meters_failed : ℕ
  pub finished_at : Option ℕ

-- The keys of `operation_params` that the scheduler reads.
pub record OperationParams : Type 0 where
  pub all_active_meters : Bool
  pub skip_if_read_today : Bool
  pub since_midnight_bishkek : Bool
  pub window_hours : Option ℕ
  pub poll_profile_id : Option ℕ
  pub obis : Option String
  pub class_id : Option ℕ

pub record ScheduledJob : Type 0 where
  pub id : ℕ
  pub job_type : JobType
  pub cron_expression : String
  pub meter_ids : List ℕ
  pub operation_params : OperationParams
  pub is_enabled : Bool
  pub created_at : ℕ
  pub last_run_at : Option ℕ

-- An item of a poll profile: `enabled` may be missing.
pub record ProfileItem : Type 0 where
  pub obis : String
  pub enabled : Option Bool

pub record PollProfile : Type 0 where
  pub id : ℕ
  pub items : List ProfileItem

pub data NotificationCategory : Type 0 where
  meter_offline tamper_event scheduled_job_failed : NotificationCategory

pub record Notification : Type 0 where
  pub category : NotificationCategory
  pub meter_id : Option ℕ
  pub scheduled_job_id : Option ℕ
  pub created_at : ℕ

pub data DisconnectBatchStatus : Type 0 where
  batch_queued in_progress completed completed_with_errors batch_failed : DisconnectBatchStatus

pub data DisconnectBatchOperation : Type 0 where
  batch_disconnect batch_reconnect : DisconnectBatchOperation

pub record DisconnectBatch : Type 0 where
  pub id : ℕ
  pub batch_id : String
  pub operation : DisconnectBatchOperation
  pub idempotency_key : String
  pub api_key_id : ℕ
  pub status : DisconnectBatchStatus
  pub finished_at : Option ℕ

pub data DisconnectBatchItemStatus : Type 0 where
  item_queued item_done item_failed : DisconnectBatchItemStatus

pub record DisconnectBatchItem : Type 0 where
  pub id : ℕ
  pub batch_id : ℕ
  pub meter_serial : String
  pub meter_id : Option ℕ
  pub status : DisconnectBatchItemStatus
  pub error_code : Option String
  pub job_id : Option ℕ

pub record ParameterWriteHistory : Type 0 where
  pub user_id : Option ℕ
  pub meter_id : ℕ
  pub parameter : String
  pub obis_code : String
  pub old_value : Option JsonValue
  pub new_value : List ℕ
  pub success : Bool
  pub job_id : ℕ

-- `object_type` and `object_id`: a meter, or a batch under its public text.
pub data AuditObject : Type 0 where
  meter_object : ℕ → AuditObject
  batch_object : String → AuditObject

pub record AuditLog : Type 0 where
  pub user_id : Option ℕ
  pub source : String
  pub action : String
  pub object_id : AuditObject
  pub success : Bool

-- `next_job` and the like are the sequences that primary keys are taken from.
pub record Db : Type 0 where
  pub jobs : List Job
  pub meters : List Meter
  pub readings : List MeterReading
  pub load_profile : List LoadProfileData
  pub scheduled_jobs : List ScheduledJob
  pub poll_profiles : List PollProfile
  pub runs : List ScheduledJobRun
  pub notifications : List Notification
  pub batches : List DisconnectBatch
  pub items : List DisconnectBatchItem
  pub write_history : List ParameterWriteHistory
  pub audit_log : List AuditLog
  pub next_job : ℕ
  pub next_run : ℕ
  pub next_batch : ℕ
  pub next_item : ℕ

-- `db.get(Model, key)`.
abbrev pub get_job : Db → ℕ → Option Job
get_job db key = find_row (λ j. j.id == key) db.jobs

abbrev pub get_meter : Db → ℕ → Option Meter
get_meter db key = find_row (λ m. m.id == key) db.meters

abbrev pub get_run : Db → ℕ → Option ScheduledJobRun
get_run db key = find_row (λ r. r.id == key) db.runs

abbrev pub get_batch : Db → ℕ → Option DisconnectBatch
get_batch db key = find_row (λ b. b.id == key) db.batches

-- A row that was changed in the session is written back under its key.
abbrev pub put_job : Job → Db → Db
put_job job db = record db { jobs = update_rows (λ j. j.id == job.id) (λ j. job) db.jobs }

abbrev pub put_meter : Meter → Db → Db
put_meter meter db = record db {
  meters = update_rows (λ m. m.id == meter.id) (λ m. meter) db.meters;
}
