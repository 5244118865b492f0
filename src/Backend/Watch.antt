-- ===== src/Backend/Watch.antt =====
-- backend/app: `Meter.is_online` of models.py, the detector of services/offline_detector.py, and
-- `apply_low_consumption_range` of services/low_consumption.py.
pub mod Twice
use rise_sun.Common.{ℕ, ◌-◌, ℤ, pos, negsuc, List, [], ◌∷◌, Bool, true, false, Option, none, some}
use rise_sun.Common.{ltb, leb, ◌==◌, not, ◌&&◌, ◌||◌, if◌then◌else◌}
use Prim.Native.String.{String}
use text.Mathlib.Text.{◌==◌ as str_eq}
use rise_sun.Backend.Jobs.{JsonValue}
use rise_sun.Backend.Db.{
  Db, Meter, MeterReading, MeterStatus, active, Notification, NotificationCategory, meter_offline,
  put_meter,
}
use rise_sun.Backend.Tables.{where_rows, any, first_by}
use rise_sun.Backend.Calls.{Env}

-- A meter seen in the future counts as seen lately, as the negative difference does.
abbrev seen_lately : ℕ → ℕ → Option ℕ → Bool
seen_lately timeout now none = false
seen_lately timeout now (some t) = ltb (now - t) timeout

-- `_is_same_bishkek_day`.
abbrev read_today : Env → ℕ → Option ℕ → Bool
read_today env now none = false
read_today env now (some t) = env.day_start t == env.day_start now

unfoldable pub is_online : Env → ℕ → ℕ → Meter → Bool
is_online env timeout now meter =
    seen_lately timeout now meter.last_seen_at || read_today env now meter.last_read_at

abbrev is_offline_category : NotificationCategory → Bool
is_offline_category meter_offline = true
is_offline_category _ = false

abbrev names_meter : ℕ → Option ℕ → Bool
names_meter key none = false
names_meter key (some k) = k == key

-- A notification for this meter since it was seen last.
abbrev pub is_notified_since : ℕ → ℕ → Notification → Bool
is_notified_since meter_id seen n =
    is_offline_category n.category && (names_meter meter_id n.meter_id && ltb seen n.created_at)

abbrev pub offline_notification : ℕ → Meter → Notification
offline_notification now meter = record {
  category = meter_offline;
  meter_id = some meter.id;
  scheduled_job_id = none;
  created_at = now;
}

abbrev pub notify_once : ℕ → Meter → ℕ → List Notification → List Notification
notify_once now meter seen log =
    if any (is_notified_since meter.id seen) log then log else offline_notification now meter ∷ log

-- One turn of the loop; the query leaves out meters never seen and inactive ones.
unfoldable pub check_seen : Env → ℕ → ℕ → Meter → Option ℕ → List Notification → List Notification
unfolding is_online
check_seen env timeout now meter none log = log
check_seen env timeout now meter (some seen) log =
    if is_online env timeout now meter then log else notify_once now meter seen log

unfoldable pub check_meter : Env → ℕ → ℕ → Meter → List Notification → List Notification
unfolding check_seen
check_meter env timeout now meter log =
    if meter.is_active then check_seen env timeout now meter meter.last_seen_at log else log

unfoldable pub check_meters : Env → ℕ → ℕ → List Meter → List Notification → List Notification
unfolding check_meter
check_meters env timeout now [] log = log
check_meters env timeout now (m ∷ ms) log =
    check_meters env timeout now ms (check_meter env timeout now m log)

unfoldable pub detect_offline : Env → ℕ → ℕ → Db → Db
unfolding check_meters
detect_offline env timeout now db = record db {
  notifications = check_meters env timeout now db.meters db.notifications;
}

-- `DISTINCT ON (meter_id) ... ORDER BY meter_id, read_at DESC`: the latest value of a meter.
abbrev read_later : MeterReading → MeterReading → Bool
read_later a b = ltb b.read_at a.read_at

abbrev value_of : Option MeterReading → Option JsonValue
value_of none = none
value_of (some r) = some r.value_json

unfoldable pub latest_energy : List MeterReading → ℕ → Option JsonValue
latest_energy readings meter_id = value_of (
    first_by read_later
      (where_rows (λ r. r.meter_id == meter_id && str_eq r.obis_code "1.1.1.8.0.ff") readings))

abbrev pub leb_int : ℤ → ℤ → Bool
leb_int (pos a) (pos b) = leb a b
leb_int (pos a) (negsuc b) = false
leb_int (negsuc a) (pos b) = true
leb_int (negsuc a) (negsuc b) = leb b a

-- `float` of a value of JSON, in thousandths, is that of Python: `none` where it raises.
abbrev pub within_range : (JsonValue → Option ℤ) → ℤ → ℤ → Option JsonValue → Bool
within_range to_float low high none = false
within_range to_float low high (some raw) = elim (to_float raw) [
  | none ↦ false
  | some v ↦ leb_int low v && leb_int v high
]

abbrev pub has_active_status : Meter → Bool
has_active_status meter = elim meter.status [ active ↦ true | _ ↦ false ]

unfoldable pub is_low : (JsonValue → Option ℤ) → ℤ → ℤ → List MeterReading → Meter → Bool
unfolding latest_energy
is_low to_float low high readings meter =
    has_active_status meter
    && (meter.is_active
        && (not meter.is_low_consumption
            && within_range to_float low high (latest_energy readings meter.id)))

abbrev pub marked : Meter → Meter
marked meter = record meter { is_low_consumption = true }

unfoldable pub mark_rows : (Meter → Bool) → List Meter → List Meter × List Meter
mark_rows p [] = ([], [])
mark_rows p (m ∷ ms) =
    let rest = mark_rows p ms in
    if p m then (marked m ∷ rest.0, marked m ∷ rest.1) else (rest.0, m ∷ rest.1)

-- The meters marked by this call, and the database.
unfoldable pub apply_low_consumption_range : (JsonValue → Option ℤ) → ℤ → ℤ → Db → List Meter × Db
unfolding is_low mark_rows
apply_low_consumption_range to_float low high db = (
  (mark_rows (is_low to_float low high db.readings) db.meters).0,
  record db { meters = (mark_rows (is_low to_float low high db.readings) db.meters).1 },
)
