-- ===== src/Backend/Outcomes/Rows.antt =====
-- How the functions that end a job leave its row.
use rise_sun.Common.{ℕ, ℤ, List, Bool, true, false, Option, none, some, ◌≡◌, refl, ◌∙◌}
use rise_sun.Common.{if◌then◌else◌, ◌==◌, eq→==, ap}
use Prim.Native.String.{String}
use rise_sun.Backend.Jobs.{
  Job, JobType, JobError, JsonValue, JobResult, succeeded, failed, whole_error,
}
use rise_sun.Backend.Tables.{update_rows}
use rise_sun.Backend.Tables.Laws.{update_twice}
use rise_sun.Backend.Db.{Db, Meter, put_job}
use rise_sun.Backend.Calls.{ReadResult}
use rise_sun.Backend.Outcomes.{
  requeued, failed_with, outcome_error, no_connection_yet, finalize_read_current_job, as_number,
  is_valid_rated_current, rated_current_read, finalize_read_rated_current_job,
  finalize_read_load_profile_job, load_profile_ended, finalize_disconnect_job,
}
use rise_sun.Backend.Rewrites.{Ends, Holds, Rewrites}

-- A job that was held may be ended or put back.
pub requeued-Ends : {job held : Job} → Holds job held → Ends job (requeued held)
requeued-Ends h = record {
  kept = h.kept;
  not_running = refl;
  consistent = (refl, h.held.2, h.held.3);
}

pub failed_with-Ends :
    {job held : Job} (error : JobError) (now : ℕ)
    → Holds job held
    → Ends job (failed_with error now held)
failed_with-Ends error now h = record { kept = h.kept; not_running = refl; consistent = (tt, tt) }

pub succeeded-Ends :
    {job held : Job} (result : Option JobResult) (now : ℕ)
    → Holds job held
    → Ends job (record held { status = succeeded; result = result; finished_at = some now })
succeeded-Ends result now h = record {
  kept = h.kept;
  not_running = refl;
  consistent = (tt, h.held.3);
}

-- A held job with another result is held.
pub result-Holds :
    {job held : Job} (result : Option JobResult)
    → Holds job held
    → Holds job (record held { result = result })
result-Holds result h = record { kept = h.kept; held = h.held }

module _ (job : Job) (old : List Job) where
  -- The table is `old` but for the row of the job, which is held, or has ended.
  pub record HeldIn (db : Db) : Type 0 where
    pub held_row : Rewrites (Holds job) job.id old db.jobs

  pub record EndsIn (db : Db) : Type 0 where
    pub ended_row : Rewrites (Ends job) job.id old db.jobs

  -- Writing the row of the job gives what it would give in `old`.
  pub record Writes (db : Db) : Type 0 where
    pub written :
        (new : Job)
        → new.id ≡ job.id
        → update_rows (λ j. j.id == job.id) (λ j. new) db.jobs
          ≡ update_rows (λ j. j.id == job.id) (λ j. new) old

  pub HeldIn-Writes : {db : Db} → HeldIn db → Writes db
  HeldIn-Writes h = record {
    written = λ new e.
        ap (update_rows (λ j. j.id == job.id) (λ j. new)) h.held_row.rows
        ∙ update_twice (λ j. j.id == job.id) (λ j. h.held_row.row) (λ j. new) old
            (λ x. eq→== _ _ h.held_row.row_id);
  }

  pub either : (b : Bool) {x y : Db} → EndsIn x → EndsIn y → EndsIn (if b then x else y)
  either true h k = h
  either false h k = k

module _ {job held : Job} {old : List Job} (h : Holds job held) (now : ℕ) (db : Db)
    (r : Writes job old db) where
  pub ended :
      (new : Job) (last : Db)
      → last.jobs ≡ db.jobs
      → Ends job new
      → EndsIn job old (put_job new last)
  ended new last same e = record {
    ended_row = record {
      row = new;
      row_id = e.kept.0;
      row_fits = e;
      rows =
          ap (λ k. update_rows (λ j. j.id == k) (λ j. new) last.jobs) e.kept.0
          ∙ ap (update_rows (λ j. j.id == job.id) (λ j. new)) same
          ∙ r.written new e.kept.0;
    };
  }

  failure : (error : JobError) → EndsIn job old (put_job (failed_with error now held) db)
  failure error = ended _ _ refl (failed_with-Ends error now h)

  not_connected : EndsIn job old (put_job (requeued held) db)
  not_connected = ended _ _ refl (requeued-Ends h)

  pub finalize_read_current_job-Ends :
      (meter : Meter) (outcome : ReadResult) (obis : String)
      → EndsIn job old (finalize_read_current_job now held meter outcome obis db)
  unfolding finalize_read_current_job
  finalize_read_current_job-Ends meter outcome obis =
      either job old outcome.ok (ended _ _ refl (succeeded-Ends _ now h)) (
        either job old (no_connection_yet outcome.error_code) not_connected
          (failure (outcome_error outcome)))

  rated_current_read-Ends :
      (meter : Meter) (amps : Option ℤ) (value : JsonValue)
      → EndsIn job old (rated_current_read now held meter amps value db)
  unfolding rated_current_read
  rated_current_read-Ends meter none value = failure (whole_error "UNEXPECTED_VALUE_TYPE")
  rated_current_read-Ends meter (some amps) value =
      either job old (is_valid_rated_current amps) (ended _ _ refl (succeeded-Ends _ now h))
        (ended _ _ refl (failed_with-Ends _ now h))

  pub finalize_read_rated_current_job-Ends :
      (meter : Meter) (outcome : ReadResult)
      → EndsIn job old (finalize_read_rated_current_job now held meter outcome db)
  unfolding finalize_read_rated_current_job
  finalize_read_rated_current_job-Ends meter outcome =
      either job old outcome.ok
        (rated_current_read-Ends meter (as_number outcome.value) outcome.value)
        (either job old (no_connection_yet outcome.error_code) not_connected
          (failure (outcome_error outcome)))

  load_profile_ended-Ends :
      (meter : Meter) (error : Option JobError)
      → EndsIn job old (load_profile_ended now held meter error db)
  load_profile_ended-Ends meter none = ended _ _ refl (succeeded-Ends _ now h)
  load_profile_ended-Ends meter (some error) =
      either job old (no_connection_yet error.code) not_connected (failure error)

  operation-Ends :
      (good : JobResult) (bad : JobResult) (ok : Bool) (code : Option String)
      → Ends job (
          if ok
          then record held { status = succeeded; result = some good; finished_at = some now }
          else record held {
            status = failed;
            result = some bad;
            error = some (record { code = code; is_partial = none });
            finished_at = some now;
          })
  operation-Ends good bad true code = succeeded-Ends _ now h
  operation-Ends good bad false code = failed_with-Ends _ now (result-Holds (some bad) h)

  pub finalize_disconnect_job-Ends :
      (meter : Meter) (operation : JobType) (ok : Bool) (code : Option String)
      → EndsIn job old (finalize_disconnect_job now held meter operation ok code db)
  unfolding finalize_disconnect_job
  finalize_disconnect_job-Ends meter operation ok code = record {
    ended_row = (ended _ db refl (operation-Ends _ _ ok code)).ended_row;
  }

pub finalize_read_load_profile_job-Ends :
    {job held : Job} {old : List Job} (h : Holds job held) (now : ℕ) (db : Db)
    → Writes job old db
    → (meter : Meter) (obis : String) (written : ℕ) (error : Option JobError)
    → EndsIn job old (finalize_read_load_profile_job now held meter obis written error db)
unfolding finalize_read_load_profile_job
finalize_read_load_profile_job-Ends h now db r meter obis written error =
    load_profile_ended-Ends (result-Holds _ h) now db r meter error
