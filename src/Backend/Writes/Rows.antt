-- ===== src/Backend/Writes/Rows.antt =====
-- The handlers that write parameters leave the row of their job ended, too.
use rise_sun.Common.{ℕ, ℤ, List, [], ◌∷◌, Bool, true, false, some, refl}
use rise_sun.Common.{if◌then◌else◌}
use Prim.Native.String.{String}
use rise_sun.Backend.Jobs.{Job, JobError, succeeded, JobResult}
use rise_sun.Backend.Db.{Db, Meter, get_meter}
use rise_sun.Backend.Calls.{Env, GatewayClient, CallTarget, WriteResult}
use rise_sun.Backend.Outcomes.{failed_with}
use rise_sun.Backend.Writes.{
  Entry, write_entry, write_entries, all_written, datetime_entries, integer_entry,
  end_write_datetime, end_write_parameter, writable_obis, value_byte, run_write_datetime,
  run_write_parameter,
}
use rise_sun.Backend.Rewrites.{Ends, IsHeld}
use rise_sun.Backend.Outcomes.Rows.{
  HeldIn, EndsIn, HeldIn-Writes, ended, succeeded-Ends, failed_with-Ends, result-Holds,
}
use rise_sun.Backend.Handlers.Rows.{
  IsHeld-Holds, Leaves, bind-Leaves, held_same, or_raise-Leaves, target_of-Leaves, Handles,
  with_meter-Leaves,
}

-- A job that is written as succeeded or failed.
written_job :
    {job : Job} (good bad : JobResult) (error : JobError) (now : ℕ) (b : Bool)
    → IsHeld job
    → Ends job (
        if b
        then record job { status = succeeded; result = some good; finished_at = some now }
        else failed_with error now (record job { result = some bad }))
written_job good bad error now true held = succeeded-Ends (some good) now (IsHeld-Holds held)
written_job good bad error now false held =
    failed_with-Ends error now (result-Holds (some bad) (IsHeld-Holds held))

module _ (client : GatewayClient) (job : Job) (old : List Job) (meter : Meter)
    (target : CallTarget) where
  abbrev HeldAfter {ℓ} : {A : Type ℓ} → A × Db → Type 0
  HeldAfter r = HeldIn job old r.1

  write_entry-Leaves :
      (entry : Entry) (db : Db)
      → HeldIn job old db
      → Leaves job old HeldAfter (write_entry client job meter target entry db)
  write_entry-Leaves entry db h =
      or_raise-Leaves job old HeldAfter db (client.read_register target entry.obis entry.class_id) _
        h
        λ o.
          or_raise-Leaves job old HeldAfter db
            (client.write_register target entry.obis entry.class_id entry.value_bytes) _ h
            λ w. held_same job old refl h

  write_entries-Leaves :
      (entries : List Entry) (db : Db)
      → HeldIn job old db
      → Leaves job old HeldAfter (write_entries client job meter target entries db)
  unfolding write_entries
  write_entries-Leaves [] db h = h
  write_entries-Leaves (entry ∷ entries) db h =
      bind-Leaves job old HeldAfter HeldAfter (write_entry client job meter target entry db) _
        (write_entry-Leaves entry db h)
        λ w k.
          bind-Leaves job old HeldAfter HeldAfter
            (write_entries client job meter target entries w.1) _
            (write_entries-Leaves entries w.1 k) λ r last. last

module _ (env : Env) (client : GatewayClient) (now : ℕ) (job : Job) (old : List Job) (db : Db) where
  end_write_datetime-Ends :
      (r : List (String × Bool) × Db)
      → IsHeld job
      → HeldIn job old r.1
      → EndsIn job old (end_write_datetime now job r)
  unfolding end_write_datetime
  end_write_datetime-Ends (results, last) held h =
      ended (IsHeld-Holds held) now last (HeldIn-Writes job old h) _ last refl
        (written_job _ _ _ now (all_written results) held)

  end_write_parameter-Ends :
      (parameter : String) (value : ℤ) (r : WriteResult × Db)
      → IsHeld job
      → HeldIn job old r.1
      → EndsIn job old (end_write_parameter now job parameter value r)
  end_write_parameter-Ends parameter value (outcome, last) held h =
      ended (IsHeld-Holds held) now last (HeldIn-Writes job old h) _ last refl
        (written_job _ _ _ now outcome.ok held)

  pub run_write_datetime-Handles :
      Handles env client now job old db (run_write_datetime env client now)
  unfolding run_write_datetime
  run_write_datetime-Handles held h =
      with_meter-Leaves env client now job old db _ (get_meter db job.meter_id) held h λ m.
        target_of-Leaves job old (EndsIn job old) env db m _ h λ t.
          bind-Leaves job old (λ (r : List (String × Bool) × Db). HeldIn job old r.1)
            (EndsIn job old)
            (write_entries client job m t (datetime_entries (env.utc_parts now)) db) _
            (write_entries-Leaves client job old m t (datetime_entries (env.utc_parts now)) db h)
            λ r k. end_write_datetime-Ends r held k

  pub run_write_parameter-Handles :
      Handles env client now job old db (run_write_parameter env client now)
  unfolding run_write_parameter
  run_write_parameter-Handles held h =
      with_meter-Leaves env client now job old db _ (get_meter db job.meter_id) held h λ m.
        or_raise-Leaves job old (EndsIn job old) db job.payload.parameter _ h λ parameter.
          or_raise-Leaves job old (EndsIn job old) db job.payload.value _ h λ value.
            or_raise-Leaves job old (EndsIn job old) db (writable_obis parameter) _ h λ obis.
              target_of-Leaves job old (EndsIn job old) env db m _ h λ t.
                or_raise-Leaves job old (EndsIn job old) db (value_byte value) _ h λ bytes.
                  bind-Leaves job old (λ (r : WriteResult × Db). HeldIn job old r.1)
                    (EndsIn job old)
                    (write_entry client job m t (integer_entry parameter obis bytes) db) _
                    (write_entry-Leaves client job old m t (integer_entry parameter obis bytes) db
                      h)
                    λ r k. end_write_parameter-Ends parameter value r held k
