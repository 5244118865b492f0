-- ===== src/Backend/Calls.antt =====
-- What the handlers of job_worker.py call: the gateway client of
-- backend/app/services/gateway_client.py, and the functions of libraries, with the settings.
use rise_sun.Common.{ℕ, List, Bool, Option, none, some}
use Prim.Native.String.{String}
use rise_sun.Backend.Jobs.{JsonValue, JobType}
use rise_sun.Backend.Db.{Db, Meter}
use rise_sun.DataTypes.Date.{DateTime}

-- Settings and functions of libraries: the decryption and decoding of a password, which may raise,
-- the parts of a time in UTC, the start of the day of a time in Asia/Bishkek, and the reading of an
-- ISO text, in that zone where the text names none.
pub record Env : Type 0 where
  pub gateway_grpc_target : String
  pub decrypt_secret : List ℕ → Option String
  pub utc_parts : ℕ → DateTime
  pub day_start : ℕ → ℕ
  pub fromisoformat : String → Option ℕ

-- The arguments that every call of the gateway has.
pub record CallTarget : Type 0 where
  pub grpc_target : String
  pub profile : String
  pub host : String
  pub port : ℕ
  pub call_home : Bool
  pub serial : String
  pub password : String

pub record ReadResult : Type 0 where
  pub ok : Bool
  pub value : JsonValue
  pub error_code : Option String
  pub is_partial : Bool

pub record WriteResult : Type 0 where
  pub ok : Bool
  pub error_code : Option String

pub record LoadProfileRow : Type 0 where
  pub timestamp_iso : String
  pub values : List JsonValue

-- How the stream of rows ends: by itself, with a `LoadProfileError`, or with another exception.
pub data StreamEnd : Type 0 where
  exhausted broken : StreamEnd
  profile_error : Option String → Bool → StreamEnd

-- What the gateway answers to each call; `none` is an exception.
pub record GatewayClient : Type 0 where
  pub read_register : CallTarget → String → ℕ → Option ReadResult
  pub write_register : CallTarget → String → ℕ → List ℕ → Option WriteResult
  pub disconnect_meter : CallTarget → JobType → Option WriteResult
  pub read_load_profile : CallTarget → String → String → String → List LoadProfileRow × StreamEnd

-- A handler's effect on the database, also where it ends with an exception: what it has added to
-- the session is committed with the failure of the job.
pub data Attempt {ℓ} (A : Type ℓ) : Type ℓ where
  done : A → Attempt A
  raised : Db → Attempt A

infixl 5 ◌>>=◌
abbrev pub ◌>>=◌ {ℓ κ} : {A : Type ℓ} {B : Type κ} → Attempt A → (A → Attempt B) → Attempt B
done a >>= f = f a
raised db >>= f = raised db

-- An exception where there is no value.
abbrev pub or_raise {ℓ} : {A : Type ℓ} → Db → Option A → Attempt A
or_raise db none = raised db
or_raise db (some a) = done a

-- `x or default`, and `x.get(key, default)`.
abbrev pub or_default {ℓ} : {A : Type ℓ} → Option A → A → A
or_default none d = d
or_default (some a) d = a

-- The target of `meter`: a missing password or profile raises.
abbrev pub target_of : Env → Db → Meter → Attempt CallTarget
target_of env db meter = do
  encrypted ← or_raise db meter.password_encrypted
  password ← or_raise db (env.decrypt_secret encrypted)
  profile ← or_raise db meter.protocol_profile
  done (record {
    grpc_target = or_default meter.grpc_target env.gateway_grpc_target;
    profile = profile;
    host = or_default meter.ip_address "";
    port = or_default meter.port 0;
    call_home = meter.is_call_home;
    serial = meter.serial_number;
    password = password;
  })
