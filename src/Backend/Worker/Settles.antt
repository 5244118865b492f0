-- ===== src/Backend/Worker/Settles.antt =====
-- What one turn of a worker does to the table of jobs.
use rise_sun.Common.{ℕ, List, Bool, true, false, Option, none, some, ◌≡◌, refl, ◌==◌, ◌∙◌}
use rise_sun.Common.{eq→==, if◌then◌else◌, ◌&&◌, All, arith, ap, sym}
use rise_sun.Backend.Jobs.{
  Job, JobType, JobStatus, JobError, bare_error, is_queued, queued, running, succeeded, failed,
  read_current, write_datetime, write_parameter, read_load_profile, disconnect, reconnect,
  read_rated_current, read_relay_state, other_type,
}
use rise_sun.Backend.Db.{Db, get_job, put_job}
use rise_sun.Backend.Tables.{update_rows}
use rise_sun.Backend.Tables.Laws.{update_twice, All-where_rows, All-first_by}
use rise_sun.Backend.Calls.{Env, GatewayClient, Attempt, done, raised}
use rise_sun.Backend.Outcomes.{failed_with}
use rise_sun.Backend.Rewrites.{IsConsistent, Fits, IsHeld, Holds, Ends, Rewrites}
use rise_sun.Backend.Outcomes.Rows.{HeldIn, EndsIn, failed_with-Ends}
use rise_sun.Backend.Finalizers.Jobs.{
  SameJobs, SameJobs-self, maybe_finalize_scheduled_job_run-jobs,
  maybe_finalize_disconnect_batch_item-jobs,
}
use rise_sun.Backend.Queue.{is_claimable, claimable_jobs, claimed, claim_next_job, select_next_job}
use rise_sun.Backend.Queue.Order.{by_rank, select_next_job_lem}
use rise_sun.Backend.Handlers.Rows.{
  Leaves, IsHeld-Holds, run_read_current-Handles, run_read_rated_current-Handles,
  run_read_relay_state-Handles, run_disconnect_operation-Handles,
}
use rise_sun.Backend.Handlers.Streams.{run_read_load_profile-Handles}
use rise_sun.Backend.Writes.Rows.{run_write_datetime-Handles, run_write_parameter-Handles}
use rise_sun.Backend.Worker.{
  caught, finalize_own_run, settle_own_item, is_operation, after_handler, run_handler, run_job,
  process_one, process_claimed,
}

pub finalize_own_run-jobs :
    (later : ℕ) (run : Option ℕ) (db : Db) → SameJobs db (finalize_own_run later run db)
finalize_own_run-jobs later none db = SameJobs-self
finalize_own_run-jobs later (some run) db = maybe_finalize_scheduled_job_run-jobs later run db

settle_own_item-jobs :
    (later : ℕ) (job : Option Job) (db : Db) → SameJobs db (settle_own_item later job db)
settle_own_item-jobs later none db = SameJobs-self
settle_own_item-jobs later (some job) db = maybe_finalize_disconnect_batch_item-jobs later job db

after_handler-jobs : (later : ℕ) (job : Job) (db : Db) → SameJobs db (after_handler later job db)
after_handler-jobs later job db = go (is_operation job.job_type)
  where
    own : Db
    own = finalize_own_run later job.scheduled_job_run_id db

    go : (b : Bool) → SameJobs db (if b then settle_own_item later (get_job db job.id) own else own)
    go true = record {
      same_jobs =
          (settle_own_item-jobs later (get_job db job.id) own).same_jobs
          ∙ (finalize_own_run-jobs later job.scheduled_job_run_id db).same_jobs;
    }
    go false = finalize_own_run-jobs later job.scheduled_job_run_id db

module _ (env : Env) (client : GatewayClient) (later : ℕ) (job : Job) (old : List Job)
    (db : Db) where
  run_handler-Leaves :
      (t : JobType)
      → IsHeld job
      → HeldIn job old db
      → Leaves job old (EndsIn job old) (run_handler env client later job t db)
  unfolding run_handler
  run_handler-Leaves read_current = run_read_current-Handles env client later job old db
  run_handler-Leaves write_datetime = run_write_datetime-Handles env client later job old db
  run_handler-Leaves write_parameter = run_write_parameter-Handles env client later job old db
  run_handler-Leaves read_load_profile = run_read_load_profile-Handles env client later job old db
  run_handler-Leaves disconnect =
      run_disconnect_operation-Handles env client later job old db disconnect
  run_handler-Leaves reconnect =
      run_disconnect_operation-Handles env client later job old db reconnect
  run_handler-Leaves read_rated_current = run_read_rated_current-Handles env client later job old db
  run_handler-Leaves read_relay_state = run_read_relay_state-Handles env client later job old db
  run_handler-Leaves (other_type name) = λ held h. h

  -- The row that was held fails.
  failed_row :
      (xs : List Job)
      → Rewrites (Holds job) job.id old xs
      → Rewrites
          (Ends job)
          job.id
          old
          (update_rows (λ j. j.id == job.id) (failed_with (bare_error "WORKER_ERROR") later) xs)
  failed_row xs r = record {
    row = failed_with (bare_error "WORKER_ERROR") later r.row;
    row_id = r.row_id;
    row_fits = failed_with-Ends (bare_error "WORKER_ERROR") later r.row_fits;
    rows =
        ap (update_rows (λ j. j.id == job.id) (failed_with (bare_error "WORKER_ERROR") later))
          r.rows
        ∙ update_twice (λ j. j.id == job.id) (λ j. r.row) _ old (λ x. eq→== _ _ r.row_id);
  }

  caught-Ends :
      (a : Attempt Db) → Leaves job old (EndsIn job old) a → EndsIn job old (caught later job a)
  caught-Ends (done last) h = h
  caught-Ends (raised last) h = record { ended_row = failed_row last.jobs h.held_row }

  pub run_job-Ends :
      IsHeld job → HeldIn job old db → EndsIn job old (run_job env client later job db)
  unfolding run_job
  run_job-Ends held h = record {
    ended_row =
        rw
          ((after_handler-jobs later job
            (caught later job (run_handler env client later job job.job_type db))).same_jobs)
          (caught-Ends _ (run_handler-Leaves job.job_type held h)).ended_row;
  }

-- A job that waits has no end and no error.
waiting_Fits :
    (s : JobStatus) (started finished : Option ℕ) (error : Option JobError)
    → Fits s started finished error
    → elim s [ queued ↦ true | _ ↦ false ] ≡ true
    → (finished ≡ none) × (error ≡ none)
waiting_Fits queued started finished error f e = (f.1, f.2)
waiting_Fits running started finished error f e = ground arith
waiting_Fits succeeded started finished error f e = ground arith
waiting_Fits failed started finished error f e = ground arith

pub claimed-IsHeld :
    (now : ℕ) (job : Job) → IsConsistent job → is_queued job ≡ true → IsHeld (claimed now job)
claimed-IsHeld now job f e = (refl, tt, rest.0, rest.1)
  where
    rest : (job.finished_at ≡ none) × (job.error ≡ none)
    rest = waiting_Fits job.status job.started_at job.finished_at job.error f e

claimable-is_queued : (a b : Bool) → (a && b) ≡ true → a ≡ true
claimable-is_queued true b e = refl
claimable-is_queued false b e = ground arith

pub selected_waits :
    (locked : ℕ → Bool) (db : Db) (job : Job)
    → All IsConsistent db.jobs
    → select_next_job locked db ≡ some job
    → IsConsistent job × (is_queued job ≡ true)
selected_waits locked db job all e = (found.0, claimable-is_queued (is_queued job) _ found.1)
  where
    found : IsConsistent job × (is_claimable locked db job ≡ true)
    found =
        All-first_by (λ j. IsConsistent j × (is_claimable locked db j ≡ true)) by_rank
          (claimable_jobs locked db) job (sym (select_next_job_lem locked db) ∙ e)
          (All-where_rows IsConsistent (is_claimable locked db) db.jobs all)

module _ (env : Env) (client : GatewayClient) (locked : ℕ → Bool) (now later : ℕ) (db : Db) where
  claimed_run :
      (job : Job)
      → IsHeld (claimed now job)
      → Rewrites
          (Ends job)
          job.id
          db.jobs
          (run_job env client later (claimed now job) (put_job (claimed now job) db)).jobs
  claimed_run job held = ended
    where
      taken :
          EndsIn
            (claimed now job)
            db.jobs
            (run_job env client later (claimed now job) (put_job (claimed now job) db))
      taken =
          run_job-Ends env client later (claimed now job) db.jobs (put_job (claimed now job) db)
            held
            (record {
              held_row = record {
                row = claimed now job;
                row_id = refl;
                row_fits = IsHeld-Holds held;
                rows = refl;
              };
            })

      ended :
          Rewrites
            (Ends job)
            job.id
            db.jobs
            (run_job env client later (claimed now job) (put_job (claimed now job) db)).jobs
      ended = record {
        row = taken.ended_row.row;
        row_id = taken.ended_row.row_id;
        row_fits = record {
          kept = taken.ended_row.row_fits.kept;
          not_running = taken.ended_row.row_fits.not_running;
          consistent = taken.ended_row.row_fits.consistent;
        };
        rows = taken.ended_row.rows;
      }

  -- With consistent jobs, if `_claim_next_job` finds a job, then `_process_one` returns true and
  -- writes the row of this job and no other row of the table. The row keeps the job's id, type,
  -- meter, run, payload and time of creation, and it is not left running: it waits again without
  -- times and error, or has ended with the time, and with an error exactly if it has failed,
  -- whatever the gateway answers and whichever exception the handler raises.
  pub process_one_settles :
      (job : Job)
      → All IsConsistent db.jobs
      → select_next_job locked db ≡ some job
      → ((process_one env client locked now later db).0 ≡ true)
        × Rewrites (Ends job) job.id db.jobs (process_one env client locked now later db).1.jobs
  unfolding process_one claim_next_job
  process_one_settles job all e = rw e (refl, claimed_run job held)
    where
      waits : IsConsistent job × (is_queued job ≡ true)
      waits = selected_waits locked db job all e

      held : IsHeld (claimed now job)
      held = claimed-IsHeld now job waits.0 waits.1

  pub process_one_idle :
      select_next_job locked db ≡ none → process_one env client locked now later db ≡ (false, db)
  unfolding process_one claim_next_job process_claimed
  process_one_idle e = rw e refl
