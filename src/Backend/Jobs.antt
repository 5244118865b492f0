-- ===== src/Backend/Jobs.antt =====
-- backend/app/models.py: a row of the table `jobs`, with the two JSON columns and the payload.
-- The wording of messages is left out. A time is a natural number of microseconds.
use rise_sun.Common.{ℕ, ℤ, List, Bool, true, false, Option, none, some}
use Prim.Native.String.{String}
use text.Mathlib.Text.{◌==◌ as str_eq}

-- The texts that `job_type` is compared with, and any other.
pub data JobType : Type 0 where
  read_current write_datetime write_parameter read_load_profile : JobType
  disconnect reconnect read_rated_current read_relay_state : JobType
  other_type : String → JobType

abbrev pub type_name : JobType → String
type_name read_current = "read_current"
type_name write_datetime = "write_datetime"
type_name write_parameter = "write_parameter"
type_name read_load_profile = "read_load_profile"
type_name disconnect = "disconnect"
type_name reconnect = "reconnect"
type_name read_rated_current = "read_rated_current"
type_name read_relay_state = "read_relay_state"
type_name (other_type name) = name

-- `job_type == other`.
abbrev pub same_type : JobType → JobType → Bool
same_type a b = str_eq (type_name a) (type_name b)

pub data JobStatus : Type 0 where
  queued running succeeded failed : JobStatus

-- A value in a JSON column. A number is counted in thousandths; a list or an object is kept as its
-- text.
pub data JsonValue : Type 0 where
  null : JsonValue
  boolean : Bool → JsonValue
  number : ℤ → JsonValue
  string structured : String → JsonValue

-- The keys that a payload may hold.
pub record Payload : Type 0 where
  pub obis : Option String
  pub class_id : Option ℕ
  pub from_iso : Option String
  pub to_iso : Option String
  pub parameter : Option String
  pub value : Option ℤ
  pub source : Option String
  pub batch_id : Option String

abbrev pub no_payload : Payload
no_payload = record {
  obis = none;
  class_id = none;
  from_iso = none;
  to_iso = none;
  parameter = none;
  value = none;
  source = none;
  batch_id = none;
}

pub data JobResult : Type 0 where
  value_read : String → JsonValue → JobResult
  rated_current : String → JsonValue → JobResult
  rows_written : String → ℕ → JobResult
  parameters_written : List (String × Bool) → JobResult
  parameter_written : String → ℤ → Bool → JobResult
  operation_done : JobType → Bool → JobResult

-- `job.error`: `is_partial` is a key that some of the dictionaries do not have.
pub record JobError : Type 0 where
  pub code : Option String
  pub is_partial : Option Bool

abbrev pub bare_error : String → JobError
bare_error code = record { code = some code; is_partial = none }

abbrev pub whole_error : String → JobError
whole_error code = record { code = some code; is_partial = some false }

pub record Job : Type 0 where
  pub id : ℕ
  pub job_type : JobType
  pub meter_id : ℕ
  pub status : JobStatus
  pub payload : Payload
  pub result : Option JobResult
  pub error : Option JobError
  pub created_by_id : Option ℕ
  pub created_at : ℕ
  pub started_at : Option ℕ
  pub finished_at : Option ℕ
  pub scheduled_job_run_id : Option ℕ

-- `status == ...`.
abbrev pub is_queued : Job → Bool
is_queued j = elim j.status [ queued ↦ true | _ ↦ false ]

abbrev pub is_running : Job → Bool
is_running j = elim j.status [ running ↦ true | _ ↦ false ]

abbrev pub is_succeeded : Job → Bool
is_succeeded j = elim j.status [ succeeded ↦ true | _ ↦ false ]

abbrev pub is_failed : Job → Bool
is_failed j = elim j.status [ failed ↦ true | _ ↦ false ]

-- `status in (QUEUED, RUNNING)`.
abbrev pub is_outstanding : Job → Bool
is_outstanding j = elim j.status [ queued ↦ true | running ↦ true | _ ↦ false ]
