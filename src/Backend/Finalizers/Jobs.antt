-- ===== src/Backend/Finalizers/Jobs.antt =====
-- The finalizers leave the table of jobs alone.
use rise_sun.Common.{ℕ, List, Bool, true, false, not, Option, none, some, ◌≡◌, refl, ◌==◌}
use rise_sun.Common.{if◌then◌else◌}
use rise_sun.Backend.Jobs.{Job, is_failed, is_outstanding}
use rise_sun.Backend.Db.{
  Db, ScheduledJobRun, DisconnectBatch, DisconnectBatchItem, get_run, get_batch,
}
use rise_sun.Backend.Db.{Notification}
use rise_sun.Backend.Tables.{any, count, find_row}
use rise_sun.Backend.Finalizers.{
  siblings_of, items_of, item_is_queued, batch_is_open, run_is_running, notify_if, finalize_run,
  maybe_finalize_scheduled_job_run, finalize_batch, finalize_batch_if_complete, settle_item,
  maybe_finalize_disconnect_batch_item, is_key,
}

-- Another database with the same jobs.
pub record SameJobs (db next : Db) : Type 0 where
  pub same_jobs : next.jobs ≡ db.jobs

pub SameJobs-self : {db : Db} → SameJobs db db
SameJobs-self = record { same_jobs = refl }

either : (b : Bool) {x y db : Db} → SameJobs db x → SameJobs db y → SameJobs db (if b then x else y)
either true h k = h
either false h k = k

notify_if-jobs :
    (b : Bool) (line : Notification) {db next : Db}
    → SameJobs db next
    → SameJobs db (notify_if b line next)
notify_if-jobs true line h = record { same_jobs = h.same_jobs }
notify_if-jobs false line h = h

finalize_run-jobs :
    (now : ℕ) (siblings : List Job) (run : Option ScheduledJobRun) (db : Db)
    → SameJobs db (finalize_run now siblings run db)
finalize_run-jobs now siblings none db = SameJobs-self
finalize_run-jobs now siblings (some run) db =
    either (run_is_running run)
      (notify_if-jobs (not (count is_failed siblings == 0)) _ (record { same_jobs = refl }))
      SameJobs-self

pub maybe_finalize_scheduled_job_run-jobs :
    (now run_id : ℕ) (db : Db) → SameJobs db (maybe_finalize_scheduled_job_run now run_id db)
unfolding maybe_finalize_scheduled_job_run
maybe_finalize_scheduled_job_run-jobs now run_id db =
    either (any is_outstanding (siblings_of run_id db)) SameJobs-self
      (finalize_run-jobs now (siblings_of run_id db) (get_run db run_id) db)

finalize_batch-jobs :
    (now : ℕ) (items : List DisconnectBatchItem) (batch : Option DisconnectBatch) (db : Db)
    → SameJobs db (finalize_batch now items batch db)
finalize_batch-jobs now items none db = SameJobs-self
finalize_batch-jobs now items (some batch) db =
    either (batch_is_open batch) (record { same_jobs = refl }) SameJobs-self

pub finalize_batch_if_complete-jobs :
    (now batch_pk : ℕ) (db : Db) → SameJobs db (finalize_batch_if_complete now batch_pk db)
unfolding finalize_batch_if_complete
finalize_batch_if_complete-jobs now batch_pk db =
    either (any item_is_queued (items_of batch_pk db)) SameJobs-self
      (finalize_batch-jobs now (items_of batch_pk db) (get_batch db batch_pk) db)

settle_item-jobs :
    (now : ℕ) (job : Job) (item : Option DisconnectBatchItem) (db : Db)
    → SameJobs db (settle_item now job item db)
settle_item-jobs now job none db = SameJobs-self
settle_item-jobs now job (some item) db = record {
  same_jobs = (finalize_batch_if_complete-jobs now item.batch_id _).same_jobs;
}

pub maybe_finalize_disconnect_batch_item-jobs :
    (now : ℕ) (job : Job) (db : Db) → SameJobs db (maybe_finalize_disconnect_batch_item now job db)
unfolding maybe_finalize_disconnect_batch_item
maybe_finalize_disconnect_batch_item-jobs now job db =
    settle_item-jobs now job (find_row (λ i. is_key job.id i.job_id) db.items) db
