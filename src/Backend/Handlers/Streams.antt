-- ===== src/Backend/Handlers/Streams.antt =====
-- The same of the handler that stores a load profile row by row.
use rise_sun.Common.{ℕ, suc, List, [], ◌∷◌, Bool, true, false, none, some, refl, ◌%◌, ◌==◌}
use rise_sun.Common.{if◌then◌else◌}
use Prim.Native.String.{String}
use rise_sun.Backend.Jobs.{Job, rows_written}
use rise_sun.Backend.Db.{Db, Meter, LoadProfileData, get_meter, put_job}
use rise_sun.Backend.Tables.{any}
use rise_sun.Backend.Calls.{
  Env, GatewayClient, ◌>>=◌, LoadProfileRow, StreamEnd, exhausted, broken, profile_error,
}
use rise_sun.Backend.Handlers.{
  insert_load_profile_row, insert_row_at, commit_count, commit_batch, store_rows, after_rows,
  default_obis, is_row, partial_error, run_read_load_profile,
}
use rise_sun.Backend.Rewrites.{Holds, IsHeld, update_row}
use rise_sun.Backend.Outcomes.Rows.{
  HeldIn, EndsIn, HeldIn-Writes, result-Holds, finalize_read_load_profile_job-Ends,
}
use rise_sun.Backend.Handlers.Rows.{
  IsHeld-Holds, Leaves, bind-Leaves, held_same, or_raise-Leaves, target_of-Leaves, Handles,
  with_meter-Leaves,
}

module _ (job : Job) (old : List Job) (held : IsHeld job) where
  insert-HeldIn :
      (row : LoadProfileData) (db : Db)
      → HeldIn job old db
      → HeldIn job old (insert_load_profile_row row db)
  unfolding insert_load_profile_row
  insert-HeldIn row db h = go (any (is_row row) db.load_profile)
    where
      go :
          (b : Bool)
          → HeldIn job old (if b then db else record db { load_profile = row ∷ db.load_profile })
      go true = h
      go false = held_same job old refl h

  commit_count-HeldIn :
      (obis : String) (written : ℕ) (db : Db)
      → HeldIn job old db
      → HeldIn job old (commit_count job obis written db)
  commit_count-HeldIn obis written db h = go (written % commit_batch == 0)
    where
      counted : Job
      counted = record job { result = some (rows_written obis written) }

      go : (b : Bool) → HeldIn job old (if b then put_job counted db else db)
      go true = record {
        held_row =
            update_row {P = Holds job} counted h.held_row refl
              (result-Holds (some (rows_written obis written)) (IsHeld-Holds held));
      }
      go false = h

  store_rows-Leaves :
      (env : Env) (meter_id : ℕ) (obis : String) (written : ℕ) (rows : List LoadProfileRow)
      (db : Db)
      → HeldIn job old db
      → Leaves job old
          (λ (r : ℕ × Db). HeldIn job old r.1)
          (store_rows env job meter_id obis written rows db)
  unfolding store_rows insert_row_at
  store_rows-Leaves env meter_id obis written [] db h = h
  store_rows-Leaves env meter_id obis written (row ∷ rows) db h =
      bind-Leaves job old (HeldIn job old) (λ (r : ℕ × Db). HeldIn job old r.1)
        (insert_row_at env meter_id obis job.id row db) _
        (or_raise-Leaves job old (HeldIn job old) db (env.fromisoformat row.timestamp_iso) _ h
          λ t. insert-HeldIn _ db h)
        λ next k.
          store_rows-Leaves env meter_id obis (suc written) rows _
            (commit_count-HeldIn obis (suc written) next k)

module _ (env : Env) (client : GatewayClient) (now : ℕ) (job : Job) (old : List Job) (db : Db) where
  after_rows-Leaves :
      (meter : Meter) (obis : String) (end : StreamEnd) (r : ℕ × Db)
      → IsHeld job
      → HeldIn job old r.1
      → Leaves job old (EndsIn job old) (after_rows env client now job meter obis end r)
  after_rows-Leaves meter obis exhausted (written, last) held h =
      finalize_read_load_profile_job-Ends (IsHeld-Holds held) now last (HeldIn-Writes job old h)
        meter obis written none
  after_rows-Leaves meter obis (profile_error code is_partial) (written, last) held h =
      finalize_read_load_profile_job-Ends (IsHeld-Holds held) now last (HeldIn-Writes job old h)
        meter obis written (some (partial_error written code is_partial))
  after_rows-Leaves meter obis broken (written, last) held h = h

  stored-Leaves :
      (meter : Meter) (obis : String) (stream : List LoadProfileRow × StreamEnd)
      → IsHeld job
      → HeldIn job old db
      → Leaves job old (EndsIn job old) (
          store_rows env job meter.id obis 0 stream.0 db
          >>= after_rows env client now job meter obis stream.1)
  stored-Leaves meter obis stream held h =
      bind-Leaves job old (λ (r : ℕ × Db). HeldIn job old r.1) (EndsIn job old)
        (store_rows env job meter.id obis 0 stream.0 db) _
        (store_rows-Leaves job old held env meter.id obis 0 stream.0 db h)
        λ r k. after_rows-Leaves meter obis stream.1 r held k

  pub run_read_load_profile-Handles :
      Handles env client now job old db (run_read_load_profile env client now)
  unfolding run_read_load_profile
  run_read_load_profile-Handles held h =
      with_meter-Leaves env client now job old db _ (get_meter db job.meter_id) held h λ m.
        target_of-Leaves job old (EndsIn job old) env db m _ h λ t.
          or_raise-Leaves job old (EndsIn job old) db job.payload.from_iso _ h λ from.
            or_raise-Leaves job old (EndsIn job old) db job.payload.to_iso _ h λ to.
              stored-Leaves m (default_obis job.payload.obis)
                (client.read_load_profile t (default_obis job.payload.obis) from to) held h
