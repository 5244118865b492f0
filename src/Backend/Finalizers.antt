-- ===== src/Backend/Finalizers.antt =====
-- What follows the end of a job: `_maybe_finalize_scheduled_job_run` and
-- `_maybe_finalize_disconnect_batch_item` of backend/app/services/job_worker.py, and
-- `finalize_batch_if_complete` of disconnect_batches.py.
pub mod Jobs
pub mod Runs
pub mod Batches
use rise_sun.Common.{ℕ, zero, suc, ◌+◌, List, ◌∷◌, [], Bool, true, false, not, length, ◌==◌}
use rise_sun.Common.{Option, none, some, if◌then◌else◌, ◌&&◌, ◌||◌}
use rise_sun.Backend.Jobs.{
  Job, JobStatus, JobError, is_outstanding, is_succeeded, is_failed, succeeded, failed,
}
use rise_sun.Backend.Db.{
  Db, ScheduledJobRun, ScheduledJobRunStatus, run_running, run_succeeded, partial_failure,
  run_failed, Notification, NotificationCategory, scheduled_job_failed, get_run, get_batch,
  DisconnectBatch, DisconnectBatchStatus, batch_queued, in_progress, completed,
  completed_with_errors, batch_failed, DisconnectBatchItem, DisconnectBatchItemStatus, item_queued,
  item_done, item_failed,
}
use rise_sun.Backend.Tables.{where_rows, any, count, update_rows, find_row}

-- `column == key` on a column that may be NULL.
abbrev pub is_key : ℕ → Option ℕ → Bool
is_key key none = false
is_key key (some k) = k == key

-- `select(Job).where(Job.scheduled_job_run_id == run_id)`.
abbrev pub siblings_of : ℕ → Db → List Job
siblings_of run_id db = where_rows (λ j. is_key run_id j.scheduled_job_run_id) db.jobs

abbrev pub run_is_running : ScheduledJobRun → Bool
run_is_running run = elim run.status [ run_running ↦ true | _ ↦ false ]

abbrev pub run_outcome : ℕ → ℕ → ScheduledJobRunStatus
run_outcome good bad =
    if bad == 0 then run_succeeded else if good == 0 then run_failed else partial_failure

-- The row of a run whose jobs have all ended.
abbrev pub finalized_run : ℕ → List Job → ScheduledJobRun → ScheduledJobRun
finalized_run now siblings run = record run {
  meters_succeeded = count is_succeeded siblings;
  meters_failed = count is_failed siblings;
  finished_at = some now;
  status = run_outcome (count is_succeeded siblings) (count is_failed siblings);
}

abbrev pub run_notification : ℕ → ScheduledJobRun → Notification
run_notification now run = record {
  category = scheduled_job_failed;
  meter_id = none;
  scheduled_job_id = some run.scheduled_job_id;
  created_at = now;
}

abbrev pub notify_if : Bool → Notification → Db → Db
notify_if true line db = record db { notifications = line ∷ db.notifications }
notify_if false line db = db

-- `db.get(ScheduledJobRun, run_id)`: an ended run is left alone.
abbrev pub finalize_run : ℕ → List Job → Option ScheduledJobRun → Db → Db
finalize_run now siblings none db = db
finalize_run now siblings (some run) db =
    if run_is_running run
    then notify_if (not (count is_failed siblings == 0)) (run_notification now run) (record db {
      runs = update_rows (λ r. r.id == run.id) (λ r. finalized_run now siblings run) db.runs;
    })
    else db

unfoldable pub maybe_finalize_scheduled_job_run : ℕ → ℕ → Db → Db
maybe_finalize_scheduled_job_run now run_id db =
    if any is_outstanding (siblings_of run_id db)
    then db
    else finalize_run now (siblings_of run_id db) (get_run db run_id) db

abbrev pub item_is_queued : DisconnectBatchItem → Bool
item_is_queued item = elim item.status [ item_queued ↦ true | _ ↦ false ]

abbrev pub item_is_failed : DisconnectBatchItem → Bool
item_is_failed item = elim item.status [ item_failed ↦ true | _ ↦ false ]

abbrev pub items_of : ℕ → Db → List DisconnectBatchItem
items_of batch_pk db = where_rows (λ i. i.batch_id == batch_pk) db.items

abbrev pub batch_is_open : DisconnectBatch → Bool
batch_is_open batch = elim batch.status [ batch_queued ↦ true | in_progress ↦ true | _ ↦ false ]

abbrev pub batch_outcome : ℕ → ℕ → DisconnectBatchStatus
batch_outcome total bad =
    if bad == 0 then completed else if bad == total then batch_failed else completed_with_errors

abbrev pub finalized_batch : ℕ → List DisconnectBatchItem → DisconnectBatch → DisconnectBatch
finalized_batch now items batch = record batch {
  status = batch_outcome (length items) (count item_is_failed items);
  finished_at = some now;
}

abbrev pub finalize_batch : ℕ → List DisconnectBatchItem → Option DisconnectBatch → Db → Db
finalize_batch now items none db = db
finalize_batch now items (some batch) db =
    if batch_is_open batch
    then record db {
      batches =
          update_rows (λ b. b.id == batch.id) (λ b. finalized_batch now items batch) db.batches;
    }
    else db

unfoldable pub finalize_batch_if_complete : ℕ → ℕ → Db → Db
finalize_batch_if_complete now batch_pk db =
    if any item_is_queued (items_of batch_pk db)
    then db
    else finalize_batch now (items_of batch_pk db) (get_batch db batch_pk) db

-- The item takes over how the job ended, and the error's code where there is one.
abbrev pub item_code : Job → DisconnectBatchItem → DisconnectBatchItem
item_code job item = elim job.error [ none ↦ item | some e ↦ record item { error_code = e.code } ]

abbrev pub settled_item : Job → DisconnectBatchItem → DisconnectBatchItem
settled_item job item = elim job.status [
  | succeeded ↦ record item { status = item_done }
  | failed ↦ item_code job (record item { status = item_failed })
  | _ ↦ record item { status = item_failed }
]

abbrev pub settle_item : ℕ → Job → Option DisconnectBatchItem → Db → Db
settle_item now job none db = db
settle_item now job (some item) db =
    finalize_batch_if_complete now item.batch_id (record db {
      items = update_rows (λ i. i.id == item.id) (λ i. settled_item job item) db.items;
    })

unfoldable pub maybe_finalize_disconnect_batch_item : ℕ → Job → Db → Db
maybe_finalize_disconnect_batch_item now job db =
    settle_item now job (find_row (λ i. is_key job.id i.job_id) db.items) db
