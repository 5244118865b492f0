-- ===== src/Backend/Scheduler.antt =====
-- backend/app/services/scheduler.py: the schedules that are due, and the jobs that they create. The
-- expression of a schedule is read by the library croniter: `next_fire` gives the next time after
-- another, and `none` where it raises.
use rise_sun.Common.{ℕ, ◌+◌, ◌-◌, ◌*◌, List, [], ◌∷◌, ◌++◌, Bool, true, false, Option, none, some}
use rise_sun.Common.{ltb, leb, ◌==◌, not, ◌&&◌, ◌||◌, if◌then◌else◌}
use Prim.Native.String.{String}
use text.Mathlib.Text.{◌==◌ as str_eq}
use rise_sun.Backend.Jobs.{
  Job, JobType, Payload, no_payload, is_outstanding, is_succeeded, read_load_profile,
  read_rated_current, same_type,
}
use rise_sun.Backend.Db.{Db, Meter, ScheduledJob, PollProfile, ProfileItem}
use rise_sun.Backend.Tables.{where_rows, map_rows, find_row, is_in}
use rise_sun.Backend.Calls.{Env, or_default}

abbrev fires_by : ℕ → Option ℕ → Bool
fires_by now none = false
fires_by now (some t) = leb t now

-- `_is_due`.
unfoldable pub is_due : (String → ℕ → Option ℕ) → ScheduledJob → ℕ → Bool
is_due next_fire s now =
    fires_by now (next_fire s.cron_expression (or_default s.last_run_at s.created_at))

-- The times of a window of the load profile, in ISO, by the clock of Asia/Bishkek.
abbrev window_start : Env → ScheduledJob → ℕ → ℕ
window_start env s now =
    if s.operation_params.since_midnight_bishkek
    then env.day_start now
    else now - or_default s.operation_params.window_hours 24 * 3600000000

abbrev enabled_items : List ProfileItem → List ProfileItem
enabled_items items = where_rows (λ i. or_default i.enabled true) items

abbrev obis_payload : ProfileItem → Payload
obis_payload item = record no_payload { obis = some item.obis }

abbrev profile_payloads : Option PollProfile → List Payload
profile_payloads none = []
profile_payloads (some profile) = map_rows obis_payload (enabled_items profile.items)

abbrev find_profile : Db → ℕ → Option PollProfile
find_profile db key = find_row (λ p. p.id == key) db.poll_profiles

abbrev current_payloads : Db → ScheduledJob → Option ℕ → List Payload
current_payloads db s (some profile_id) = profile_payloads (find_profile db profile_id)
current_payloads db s none =
    record no_payload {
      obis = some (or_default s.operation_params.obis "1.1.1.8.0.ff");
      class_id = s.operation_params.class_id;
    }
    ∷ []

abbrev set_text : Option String → Option String
set_text none = none
set_text (some text) = if str_eq text "" then none else some text

-- `_resolve_payloads`; `local_iso` writes a time as the clock of Asia/Bishkek shows it.
unfoldable pub resolve_payloads : Env → (ℕ → String) → ℕ → Db → ScheduledJob → List Payload
resolve_payloads env local_iso now db s = elim s.job_type [
  | read_load_profile ↦
      record no_payload {
        from_iso = some (local_iso (window_start env s now));
        to_iso = some (local_iso now);
        obis = set_text s.operation_params.obis;
      }
      ∷ []
  | read_rated_current ↦ no_payload ∷ []
  | other ↦ current_payloads db s s.operation_params.poll_profile_id
]

-- `_bishkek_day_bounds_utc`: from the start of the day up to, not including, a day later.
abbrev pub in_day : Env → ℕ → ℕ → Bool
in_day env now t = leb (env.day_start now) t && ltb t (env.day_start now + 86400000000)

abbrev in_day_at : Env → ℕ → Option ℕ → Bool
in_day_at env now none = false
in_day_at env now (some t) = in_day env now t

abbrev pub meter_ids_of : List Job → List ℕ
meter_ids_of jobs = map_rows (λ j. j.meter_id) jobs

unfoldable pub already_read_today_meter_ids : Env → ℕ → Db → List ℕ → String → List ℕ
already_read_today_meter_ids env now db ids obis =
    map_rows (λ r. r.meter_id)
      (where_rows
        (λ r. is_in r.meter_id ids && (str_eq r.obis_code obis && in_day env now r.read_at))
        db.readings)

unfoldable pub already_succeeded_today_meter_ids : Env → ℕ → Db → List ℕ → JobType → List ℕ
already_succeeded_today_meter_ids env now db ids job_type = meter_ids_of (
    where_rows
      (λ j.
        is_in j.meter_id ids
        && (same_type j.job_type job_type && (is_succeeded j && in_day_at env now j.finished_at)))
      db.jobs)

unfoldable pub outstanding_job_meter_ids : Db → List ℕ → JobType → List ℕ
outstanding_job_meter_ids db ids job_type = meter_ids_of (
    where_rows (λ j. is_in j.meter_id ids && (same_type j.job_type job_type && is_outstanding j))
      db.jobs)

abbrev pub ids_of : List Meter → List ℕ
ids_of meters = map_rows (λ m. m.id) meters

-- `[m for m in meters if m.id not in ids]`.
abbrev pub without : List ℕ → List Meter → List Meter
without ids meters = where_rows (λ m. not (is_in m.id ids)) meters

abbrev pub in_group : ScheduledJob → Meter → Bool
in_group s m = m.is_active && (s.operation_params.all_active_meters || is_in m.id s.meter_ids)

unfoldable pub free_meters : Db → ScheduledJob → List Meter
unfolding outstanding_job_meter_ids
free_meters db s =
    without (outstanding_job_meter_ids db (ids_of (where_rows (in_group s) db.meters)) s.job_type)
      (where_rows (in_group s) db.meters)

-- One payload with each of the meters, and each of the payloads with one meter.
abbrev pub with_payload : Payload → List Meter → List (Meter × Payload)
with_payload payload meters = map_rows (λ m. (m, payload)) meters

abbrev pub with_meter_of : Meter → List Payload → List (Meter × Payload)
with_meter_of meter payloads = map_rows (λ p. (meter, p)) payloads

unfoldable pub all_pairs : List Meter → List Payload → List (Meter × Payload)
all_pairs [] payloads = []
all_pairs (m ∷ ms) payloads = with_meter_of m payloads ++ all_pairs ms payloads

-- A payload of `read_current` always has the key `obis`.
unfoldable pub unread_pairs : Env → ℕ → Db → List Meter → List Payload → List (Meter × Payload)
unfolding already_read_today_meter_ids
unread_pairs env now db meters [] = []
unread_pairs env now db meters (p ∷ ps) =
    with_payload p (
      without (already_read_today_meter_ids env now db (ids_of meters) (or_default p.obis ""))
        meters)
    ++ unread_pairs env now db meters ps

abbrev pub has_no_rating : Meter → Bool
has_no_rating m = elim m.rated_current_amps [ none ↦ true | some amps ↦ false ]

-- `[(m, payloads[0]) for m in meters if ...]`, on a list that is not empty.
abbrev pub first_payload : List Meter → List Payload → List (Meter × Payload)
first_payload meters [] = []
first_payload meters (p ∷ ps) = with_payload p (where_rows has_no_rating meters)
