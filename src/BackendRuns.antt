-- ===== src/BackendRuns.antt =====
-- Runs of the backend: a small database, a gateway that answers, and the theorems applied to them.
use Prim.Native.String.{String}
use rise_sun.Common.{
  ℕ, ◌-◌, ◌%◌, pos, List, [], ◌∷◌, Bool, true, false, Option, none, some, ◌≡◌, refl,
}
use rise_sun.Common.{arith}
use rise_sun.Backend.Jobs.{
  Job, JobType, JobStatus, queued, running, succeeded, read_current, read_relay_state, disconnect,
  no_payload, number, null, is_queued, is_outstanding,
}
use rise_sun.Backend.Db.{Db, Meter, active, ScheduledJob, ScheduledJobRun, run_running, get_run}
use rise_sun.Backend.Tables.{any, find_row, first_by, where_rows}
use rise_sun.Backend.Calls.{Env, GatewayClient, LoadProfileRow, exhausted, done}
use rise_sun.Backend.Outcomes.{finalize_read_current_job}
use rise_sun.Backend.Rewrites.{Rewrites, Ends}
use rise_sun.Backend.Finalizers.{siblings_of, maybe_finalize_scheduled_job_run}
use rise_sun.Backend.Finalizers.Runs.{Closed, maybe_finalize_scheduled_job_run_twice}
use rise_sun.Backend.Handlers.{insert_rows, insert_row_at, insert_load_profile_row}
use rise_sun.Backend.Handlers.Replay.{insert_rows_again}
use rise_sun.Backend.Queue.{select_next_job}
use rise_sun.Backend.Worker.{process_one}
use rise_sun.Backend.Worker.Overlap.{
  Task, task, pool, locking, lock_of, locks, none_yet, after, Exclusive,
}
use rise_sun.Backend.Worker.Overlap.Exclusive.{Moves-Exclusive}
use rise_sun.Backend.Billing.{create_batch, accepted_batch, accept_new, has_key}
use rise_sun.Backend.Billing.Again.{create_batch_again}
use rise_sun.Backend.Finalizers.Batches.{BatchAfter, finalize_batch_if_complete_lem}
use rise_sun.Backend.Finalizers.{items_of, finalize_batch_if_complete}
use rise_sun.Backend.Db.{DisconnectBatch, batch_disconnect, batch_queued, get_batch, item_failed}
use rise_sun.Backend.Worker.Settles.{process_one_settles}
use rise_sun.Backend.Stale.{reap_stale_running_jobs, expire_stale_queued_jobs_for_new_day}
use rise_sun.Backend.Stale.Ends.{expires, no_more, reap_strands_run}
use rise_sun.Backend.Report.{JobResultItem, Report, report_one, finish_reported, skip}
use rise_sun.Backend.Report.Again.{report_repeated}
use rise_sun.Backend.Report.{report_all}
use rise_sun.Backend.Queue.{claim_next_job, claimed}
use rise_sun.Backend.Worker.{run_job}
use rise_sun.Backend.Db.{get_job}
use rise_sun.Backend.Tables.{update_rows}
use rise_sun.Backend.Stale.Rollover.{RowByRow, Rollover, expire_stale_queued_jobs_lem}
use rise_sun.Backend.Trigger.{trigger_one}
use rise_sun.Backend.Trigger.Fresh.{Adds, trigger_one_adds}
use rise_sun.Backend.Watch.{is_online, detect_offline}
use rise_sun.Backend.Watch.Twice.{detect_offline_twice}
use rise_sun.Backend.Consistency.{AllConsistent, IsOnlyRow}
use rise_sun.Backend.Consistency.Reach.{here, next, takes, carries_out, Reach-AllConsistent}
use rise_sun.DataTypes.Date.{DateTime}

abbrev midnight : DateTime
midnight = record { year = 2026; month = 9; day = 12; hour = 0; minute = 0; second = 0 }

-- Days of 100 units of time.
abbrev env : Env
env = record {
  gateway_grpc_target = "gateway:50051";
  decrypt_secret = λ c. some "00000000";
  utc_parts = λ t. midnight;
  day_start = λ t. t - t % 100;
  fromisoformat = λ text. some 7;
}

abbrev client : GatewayClient
client = record {
  read_register = λ t obis class_id.
      some
        (record { ok = true; value = number (pos 12500); error_code = none; is_partial = false });
  write_register = λ t obis class_id bytes. none;
  disconnect_meter = λ t operation. some (record { ok = true; error_code = none });
  read_load_profile = λ t obis from to. ([], exhausted);
}

abbrev meter : Meter
meter = record {
  id = 7;
  serial_number = "201909002049";
  ip_address = none;
  port = none;
  is_call_home = true;
  protocol_profile = some "dtzy217";
  password_encrypted = some [];
  is_active = true;
  status = active;
  grpc_target = none;
  last_seen_at = some 150;
  last_read_at = none;
  is_low_consumption = false;
  rated_current_amps = none;
  res_name = none;
}

abbrev job_of : ℕ → JobType → JobStatus → ℕ → Option ℕ → Option ℕ → Job
job_of key job_type status created started run = record {
  id = key;
  job_type = job_type;
  meter_id = 7;
  status = status;
  payload = record no_payload { obis = some "1.1.1.8.0.ff" };
  result = none;
  error = none;
  created_by_id = none;
  created_at = created;
  started_at = started;
  finished_at = none;
  scheduled_job_run_id = run;
}

abbrev scheduled_read : Job
scheduled_read = job_of 1 read_current queued 110 none (some 5)

abbrev relay_read : Job
relay_read = job_of 2 read_relay_state queued 120 none none

abbrev started_read : Job
started_read = job_of 3 read_current running 130 (some 140) (some 5)

abbrev run : ScheduledJobRun
run = record {
  id = 5;
  scheduled_job_id = 9;
  status = run_running;
  meters_total = 1;
  meters_succeeded = 0;
  meters_failed = 0;
  finished_at = none;
}

abbrev db_of : List Job → Db
db_of jobs = record {
  jobs = jobs;
  meters = meter ∷ [];
  readings =
      record {
        meter_id = 7;
        obis_code = "1.1.1.8.0.ff";
        value_json = number (pos 30);
        read_at = 90;
      }
      ∷ [];
  load_profile = [];
  scheduled_jobs = [];
  poll_profiles = [];
  runs = run ∷ [];
  notifications = [];
  batches = [];
  items = [];
  write_history = [];
  audit_log = [];
  next_job = 4;
  next_run = 6;
  next_batch = 1;
  next_item = 1;
}

abbrev nothing_locked : ℕ → Bool
nothing_locked key = false

abbrev waiting : Db
waiting = db_of (scheduled_read ∷ relay_read ∷ [])

waiting-AllConsistent : AllConsistent waiting
waiting-AllConsistent = ((refl, refl, refl), ((refl, refl, refl), tt))

relay_read_next : select_next_job nothing_locked waiting ≡ some relay_read
unfolding select_next_job where_rows first_by find_row
relay_read_next = refl

process_one_settles_example :
    ((process_one env client nothing_locked 200 210 waiting).0 ≡ true)
    × Rewrites
        (Ends relay_read)
        2
        waiting.jobs
        (process_one env client nothing_locked 200 210 waiting).1.jobs
process_one_settles_example =
    process_one_settles env client nothing_locked 200 210 waiting relay_read waiting-AllConsistent
      relay_read_next

-- The row of the command after its claim.
abbrev taken_read : Job
taken_read = claimed 200 relay_read

abbrev after_claim : Db
after_claim = (claim_next_job nothing_locked 200 waiting).1

taken_found : get_job after_claim 2 ≡ some taken_read
unfolding claim_next_job select_next_job where_rows first_by find_row update_rows
taken_found = refl

taken_only : IsOnlyRow taken_read after_claim.jobs
unfolding claim_next_job select_next_job where_rows first_by find_row update_rows
taken_only = ((λ e. ground (arith, e)), ((λ e. refl), tt))

Reach-AllConsistent_example : AllConsistent (run_job env client 210 taken_read after_claim)
Reach-AllConsistent_example = Reach-AllConsistent env client waiting _ waiting-AllConsistent (
    next (next here (takes nothing_locked 200 waiting))
      (carries_out 210 taken_read after_claim taken_found refl taken_only))

abbrev busy : Db
busy = db_of (started_read ∷ [])

busy-AllConsistent : AllConsistent busy
busy-AllConsistent = ((tt, refl, refl), tt)

abbrev item : JobResultItem
item = record {
  job_id = 3;
  obis = "1.1.1.8.0.ff";
  outcome = record { ok = true; value = number (pos 12500); error_code = none; is_partial = false };
}

abbrev report : Report
report = record { accepted = 0; skipped = 0; db = busy }

first_report_accepted : (report_one 300 meter item report).accepted ≡ 1
unfolding report_one finish_reported find_row finalize_read_current_job
first_report_accepted = refl

-- The same result twice more, in one report and then in another.
report_repeated_example :
    report_one 320 meter item (report_all 310 meter (item ∷ []) (report_one 300 meter item report))
    ≡ skip (report_all 310 meter (item ∷ []) (report_one 300 meter item report))
report_repeated_example =
    report_repeated 300 310 320 meter meter meter item item (item ∷ []) report busy-AllConsistent
      first_report_accepted refl

-- The run of a job that has ended.
abbrev ended : Db
ended = db_of (record started_read { status = succeeded; finished_at = some 300 } ∷ [])

maybe_finalize_scheduled_job_run_twice_example :
    maybe_finalize_scheduled_job_run 320 5 (maybe_finalize_scheduled_job_run 310 5 ended)
    ≡ maybe_finalize_scheduled_job_run 310 5 ended
maybe_finalize_scheduled_job_run_twice_example =
    maybe_finalize_scheduled_job_run_twice 310 320 5 ended

run_found : get_run busy 5 ≡ some run
unfolding find_row
run_found = refl

busy_waiting : any is_queued (siblings_of 5 busy) ≡ false
unfolding any where_rows
busy_waiting = refl

abbrev day_after : Db
day_after = (expire_stale_queued_jobs_for_new_day env 500 (reap_stale_running_jobs 400 busy).1).1

-- A new day after the restart does not close the run either.
reap_strands_run_example :
    (any is_outstanding (siblings_of 5 day_after) ≡ false)
    × (get_run day_after 5 ≡ some run)
    × ((new : ScheduledJobRun) × (get_run (maybe_finalize_scheduled_job_run 510 5 day_after) 5
          ≡ some new)
        × Closed run new (siblings_of 5 day_after) 510)
reap_strands_run_example =
    reap_strands_run env 400 510 5 busy day_after run run_found refl busy_waiting
      (expires 500 (reap_stale_running_jobs 400 busy).1 no_more)

-- The read of the schedule expires, and the command stays.
expire_stale_queued_jobs_lem_example :
    RowByRow
      (Rollover 200 205)
      waiting.jobs
      (expire_stale_queued_jobs_for_new_day env 205 waiting).1.jobs
expire_stale_queued_jobs_lem_example = expire_stale_queued_jobs_lem env 205 waiting

abbrev schedule : ScheduledJob
schedule = record {
  id = 9;
  job_type = disconnect;
  cron_expression = "*/30 * * * *";
  meter_ids = 7 ∷ [];
  operation_params = record {
    all_active_meters = false;
    skip_if_read_today = false;
    since_midnight_bishkek = false;
    window_hours = none;
    poll_profile_id = none;
    obis = none;
    class_id = none;
  };
  is_enabled = true;
  created_at = 0;
  last_run_at = none;
}

trigger_one_adds_example :
    Adds waiting schedule waiting.jobs
      (trigger_one env (λ t. "2026-09-12T00:00:00") 205 schedule waiting).jobs
trigger_one_adds_example = trigger_one_adds env (λ t. "2026-09-12T00:00:00") 205 schedule waiting

offline_now : is_online env 30 180 meter ≡ false
unfolding is_online
offline_now = refl

-- The meter was seen at 150, and is offline 40 later.
detect_offline_twice_example :
    detect_offline env 30 190 (detect_offline env 30 180 waiting)
    ≡ detect_offline env 30 180 waiting
detect_offline_twice_example =
    detect_offline_twice env 30 180 190 waiting (omega arith, tt) (λ e. offline_now, tt)

abbrev rows : List LoadProfileRow
rows = record { timestamp_iso = "2026-09-12T00:00:00"; values = null ∷ [] } ∷ []

abbrev stored : Db
stored = record waiting {
  load_profile =
      record {
        meter_id = 7;
        obis_code = "1.1.63.1.0.ff";
        timestamp = 7;
        values_json = null ∷ [];
        job_id = 3;
      }
      ∷ [];
}

rows_stored : insert_rows env 7 "1.1.63.1.0.ff" 3 rows waiting ≡ done stored
unfolding insert_rows insert_row_at insert_load_profile_row any
rows_stored = refl

insert_rows_again_example : insert_rows env 7 "1.1.63.1.0.ff" 4 rows stored ≡ done stored
insert_rows_again_example =
    insert_rows_again env 7 "1.1.63.1.0.ff" 3 4 rows waiting stored rows_stored

-- One worker has locked the command, and another one selects what is left.
abbrev first_task : Task
first_task = task 1 locking relay_read

first_lock : select_next_job (lock_of []) waiting ≡ some relay_read
unfolding select_next_job where_rows first_by find_row lock_of
first_lock = refl

second_lock : select_next_job (lock_of (first_task ∷ [])) waiting ≡ some scheduled_read
unfolding select_next_job where_rows first_by find_row lock_of
second_lock = refl

Moves-Exclusive_example : Exclusive (task 2 locking scheduled_read ∷ first_task ∷ [])
Moves-Exclusive_example =
    Moves-Exclusive env client waiting
      (pool waiting (task 2 locking scheduled_read ∷ first_task ∷ [])) waiting-AllConsistent
      (after (after none_yet (locks 1 waiting [] relay_read first_lock))
        (locks 2 waiting (first_task ∷ []) scheduled_read second_lock))

-- One meter of the batch is known and one is not.
abbrev requested : List String
requested = "201909002049" ∷ "201909002050" ∷ []

no_batch : find_row (has_key 3 "k1") waiting.batches ≡ none
unfolding find_row
no_batch = refl

abbrev once_billed : Db
once_billed = accept_new 300 "b-1" batch_disconnect "k1" 3 requested waiting

create_batch_again_example :
    (create_batch 300 "b-1" batch_disconnect (some "k1") 3 requested waiting
      ≡ (accepted_batch "b-1", once_billed))
    × (create_batch 310 "b-2" batch_disconnect (some "k1") 3 requested once_billed
        ≡ (accepted_batch "b-1", once_billed))
create_batch_again_example =
    create_batch_again 300 310 "b-1" "b-2" batch_disconnect 3 requested waiting "k1" tt no_batch
      refl refl

abbrev batch : DisconnectBatch
batch = record {
  id = 1;
  batch_id = "b-1";
  operation = batch_disconnect;
  idempotency_key = "k1";
  api_key_id = 3;
  status = batch_queued;
  finished_at = none;
}

abbrev billed : Db
billed = record waiting {
  batches = batch ∷ [];
  items =
      record {
        id = 1;
        batch_id = 1;
        meter_serial = "201909002050";
        meter_id = none;
        status = item_failed;
        error_code = some "METER_NOT_FOUND";
        job_id = none;
      }
      ∷ [];
}

batch_found : get_batch billed 1 ≡ some batch
unfolding find_row
batch_found = refl

finalize_batch_if_complete_lem_example :
    BatchAfter 310 (items_of 1 billed) batch billed (finalize_batch_if_complete 310 1 billed)
finalize_batch_if_complete_lem_example =
    finalize_batch_if_complete_lem 310 1 billed batch batch_found refl
