-- ===== src/Backend/Handlers/Rows.antt =====
-- Every handler writes the row of its own job only, and leaves it ended unless it raises.
use rise_sun.Common.{ℕ, List, Option, none, some, ◌≡◌, refl}
use rise_sun.Backend.Jobs.{Job, JobType, bare_error}
use rise_sun.Backend.Db.{Db, Meter, get_meter}
use rise_sun.Backend.Calls.{
  Env, GatewayClient, Attempt, done, raised, ◌>>=◌, or_raise, or_default, CallTarget, target_of,
}
use rise_sun.Backend.Handlers.{
  with_meter, run_read_current, run_read_rated_current, run_read_relay_state,
  run_disconnect_operation,
}
use rise_sun.Backend.Outcomes.{rated_current_obis, relay_state_obis}
use rise_sun.Backend.Rewrites.{Holds, IsHeld}
use rise_sun.Backend.Outcomes.Rows.{
  HeldIn, EndsIn, HeldIn-Writes, failed_with-Ends, ended, finalize_read_current_job-Ends,
  finalize_read_rated_current_job-Ends, finalize_disconnect_job-Ends,
}

pub IsHeld-Holds : {job : Job} → IsHeld job → Holds job job
IsHeld-Holds h = record { kept = (refl, refl, refl, refl, refl, refl); held = h }

module _ (job : Job) (old : List Job) where
  -- What a step returns satisfies `D`; where it raises, the job is still held.
  abbrev pub Leaves {ℓ} : {A : Type ℓ} → (A → Type 0) → Attempt A → Type 0
  Leaves D (done a) = D a
  Leaves D (raised db) = HeldIn job old db

  pub bind-Leaves {ℓ κ} :
      {A : Type ℓ} {B : Type κ} (D : A → Type 0) (E : B → Type 0) (m : Attempt A)
      (f : A → Attempt B)
      → Leaves D m
      → ((a : A) → D a → Leaves E (f a))
      → Leaves E (m >>= f)
  bind-Leaves D E (done a) f h k = k a h
  bind-Leaves D E (raised db) f h k = h

  pub held_same : {db next : Db} → next.jobs ≡ db.jobs → HeldIn job old db → HeldIn job old next
  held_same e h = record { held_row = rw e h.held_row }

  -- The steps that read only.
  pub or_raise-Leaves {ℓ κ} :
      {A : Type ℓ} {B : Type κ} (E : B → Type 0) (db : Db) (o : Option A) (f : A → Attempt B)
      → HeldIn job old db
      → ((a : A) → Leaves E (f a))
      → Leaves E (or_raise db o >>= f)
  or_raise-Leaves E db none f h k = h
  or_raise-Leaves E db (some a) f h k = k a

  pub target_of-Leaves {κ} :
      {B : Type κ} (E : B → Type 0) (env : Env) (db : Db) (meter : Meter)
      (f : CallTarget → Attempt B)
      → HeldIn job old db
      → ((target : CallTarget) → Leaves E (f target))
      → Leaves E (target_of env db meter >>= f)
  target_of-Leaves E env db meter f h k =
      bind-Leaves (λ t. Unit {0}) E (target_of env db meter) f
        (or_raise-Leaves (λ t. Unit {0}) db meter.password_encrypted _ h
          λ c.
            or_raise-Leaves (λ t. Unit {0}) db (env.decrypt_secret c) _ h
              λ p. or_raise-Leaves (λ t. Unit {0}) db meter.protocol_profile _ h λ q. tt)
        (λ t u. k t)

module _ (env : Env) (client : GatewayClient) (now : ℕ) (job : Job) (old : List Job) (db : Db) where
  -- The theorem of a handler, which is given the rows with its job held.
  abbrev pub Handles : (Job → Db → Attempt Db) → Type 0
  Handles handler =
      IsHeld job → HeldIn job old db → Leaves job old (EndsIn job old) (handler job db)

  pub with_meter-Leaves :
      (handle : Meter → Attempt Db) (meter : Option Meter)
      → IsHeld job
      → HeldIn job old db
      → ((m : Meter) → Leaves job old (EndsIn job old) (handle m))
      → Leaves job old (EndsIn job old) (with_meter now job db handle meter)
  with_meter-Leaves handle none held h k =
      ended (IsHeld-Holds held) now db (HeldIn-Writes job old h) _ db refl
        (failed_with-Ends (bare_error "METER_NOT_FOUND") now (IsHeld-Holds held))
  with_meter-Leaves handle (some m) held h k = k m

  pub run_read_current-Handles : Handles (run_read_current env client now)
  unfolding run_read_current
  run_read_current-Handles held h = with_meter-Leaves _ (get_meter db job.meter_id) held h λ m.
      or_raise-Leaves job old (EndsIn job old) db job.payload.obis _ h λ obis.
        target_of-Leaves job old (EndsIn job old) env db m _ h λ t.
          or_raise-Leaves job old (EndsIn job old) db
            (client.read_register t obis (or_default job.payload.class_id 0)) _ h
            λ outcome.
              finalize_read_current_job-Ends (IsHeld-Holds held) now db (HeldIn-Writes job old h) m
                outcome obis

  pub run_read_rated_current-Handles : Handles (run_read_rated_current env client now)
  unfolding run_read_rated_current
  run_read_rated_current-Handles held h =
      with_meter-Leaves _ (get_meter db job.meter_id) held h λ m.
        target_of-Leaves job old (EndsIn job old) env db m _ h λ t.
          or_raise-Leaves job old (EndsIn job old) db (client.read_register t rated_current_obis 0)
            _ h
            λ outcome.
              finalize_read_rated_current_job-Ends (IsHeld-Holds held) now db
                (HeldIn-Writes job old h) m outcome

  pub run_read_relay_state-Handles : Handles (run_read_relay_state env client now)
  unfolding run_read_relay_state
  run_read_relay_state-Handles held h = with_meter-Leaves _ (get_meter db job.meter_id) held h λ m.
      target_of-Leaves job old (EndsIn job old) env db m _ h λ t.
        or_raise-Leaves job old (EndsIn job old) db (client.read_register t relay_state_obis 1) _ h
          λ outcome.
            finalize_read_current_job-Ends (IsHeld-Holds held) now db (HeldIn-Writes job old h) m
              outcome relay_state_obis

  pub run_disconnect_operation-Handles :
      (operation : JobType) → Handles (run_disconnect_operation env client now operation)
  unfolding run_disconnect_operation
  run_disconnect_operation-Handles operation held h =
      with_meter-Leaves _ (get_meter db job.meter_id) held h λ m.
        target_of-Leaves job old (EndsIn job old) env db m _ h λ t.
          or_raise-Leaves job old (EndsIn job old) db (client.disconnect_meter t operation) _ h
            λ outcome.
              finalize_disconnect_job-Ends (IsHeld-Holds held) now db (HeldIn-Writes job old h) m
                operation outcome.ok outcome.error_code
