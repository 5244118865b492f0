-- ===== src/Backend/Report/Rows.antt =====
-- What a reported result does to the table of jobs.
use rise_sun.Common.{ℕ, suc, List, Bool, true, false, Option, none, some, ◌≡◌, refl}
use rise_sun.Common.{◌&&◌, All, arith}
use rise_sun.Common.{inl, inr, Bool-cases}
use rise_sun.Backend.Jobs.{
  Job, JobType, JobStatus, JobError, is_running, queued, running, succeeded, failed, read_current,
  write_datetime, write_parameter, read_load_profile, disconnect, reconnect, read_rated_current,
  read_relay_state, other_type,
}
use rise_sun.Backend.Db.{Db, Meter, get_job}
use rise_sun.Backend.Tables.Laws.{All-find_row}
use rise_sun.Backend.Rewrites.{IsConsistent, Fits, IsGiven, IsHeld}
use rise_sun.Backend.Outcomes.Rows.{
  EndsIn, Writes, finalize_read_current_job-Ends, finalize_read_rated_current_job-Ends,
  finalize_disconnect_job-Ends,
}
use rise_sun.Backend.Handlers.Rows.{IsHeld-Holds}
use rise_sun.Backend.Finalizers.Jobs.{
  SameJobs, SameJobs-self, maybe_finalize_disconnect_batch_item-jobs,
}
use rise_sun.Backend.Worker.Settles.{finalize_own_run-jobs}
use rise_sun.Backend.Report.{
  JobResultItem, Report, is_reportable, settle_reported, finish_operation, finish_reported, skip,
  accept_with, report_to, current_meter, report_one,
}

pub running_Fits :
    (s : JobStatus) (started finished : Option ℕ) (error : Option JobError)
    → Fits s started finished error
    → elim s [ running ↦ true | _ ↦ false ] ≡ true
    → (s ≡ running) × IsGiven started × (finished ≡ none) × (error ≡ none)
running_Fits queued started finished error f e = ground arith
running_Fits running started finished error f e = (refl, f.0, f.1, f.2)
running_Fits succeeded started finished error f e = ground arith
running_Fits failed started finished error f e = ground arith

pub running-IsHeld : (job : Job) → IsConsistent job → is_running job ≡ true → IsHeld job
running-IsHeld job f e = running_Fits job.status job.started_at job.finished_at job.error f e

pub here-Writes : (job : Job) (db : Db) → Writes job db.jobs db
here-Writes job db = record { written = λ new e. refl }

settle_reported-jobs :
    (now : ℕ) (job : Option Job) (db : Db) → SameJobs db (settle_reported now job db)
settle_reported-jobs now none db = SameJobs-self
settle_reported-jobs now (some job) db = maybe_finalize_disconnect_batch_item-jobs now job db

pub same-EndsIn :
    {job : Job} {old : List Job} {db next : Db}
    → SameJobs db next
    → EndsIn job old db
    → EndsIn job old next
same-EndsIn same h = record { ended_row = rw (same.same_jobs) h.ended_row }

-- A result that is not skipped ends its job.
abbrev EndsIfAny : Job → Db → Option Db → Type 0
EndsIfAny job db none = Unit {0}
EndsIfAny job db (some next) = EndsIn job db.jobs next

module _ (now : ℕ) (job : Job) (meter : Meter) (item : JobResultItem) (db : Db)
    (held : IsHeld job) where
  finish_operation-Ends :
      (operation : JobType)
      → EndsIn job db.jobs (finish_operation now job meter operation item.outcome db)
  finish_operation-Ends operation = same-EndsIn (settle_reported-jobs now _ _) (
      finalize_disconnect_job-Ends (IsHeld-Holds held) now db (here-Writes job db) meter operation
        item.outcome.ok item.outcome.error_code)

  finish_reported-Ends : (t : JobType) → EndsIfAny job db (finish_reported now job meter item t db)
  unfolding finish_reported
  finish_reported-Ends read_current =
      finalize_read_current_job-Ends (IsHeld-Holds held) now db (here-Writes job db) meter
        item.outcome item.obis
  finish_reported-Ends read_rated_current =
      finalize_read_rated_current_job-Ends (IsHeld-Holds held) now db (here-Writes job db) meter
        item.outcome
  finish_reported-Ends read_relay_state =
      finalize_read_current_job-Ends (IsHeld-Holds held) now db (here-Writes job db) meter
        item.outcome item.obis
  finish_reported-Ends disconnect = finish_operation-Ends disconnect
  finish_reported-Ends reconnect = finish_operation-Ends reconnect
  finish_reported-Ends write_datetime = tt
  finish_reported-Ends write_parameter = tt
  finish_reported-Ends read_load_profile = tt
  finish_reported-Ends (other_type name) = tt

-- What a result makes of the report: it is skipped, or it ends the job that it names.
pub data Taken (r : Report) (job : Option Job) (next : Report) : Type 0 where
  skipped_it : next ≡ skip r → Taken r job next
  ended_it :
      (j : Job)
      → job ≡ some j
      → is_running j ≡ true
      → next.accepted ≡ suc r.accepted
      → next.skipped ≡ r.skipped
      → EndsIn j r.db.jobs next.db
      → Taken r job next

accept_with-Taken :
    (now : ℕ) (job : Job) (r : Report) (o : Option Db)
    → is_running job ≡ true
    → EndsIfAny job r.db o
    → Taken r (some job) (accept_with now job r o)
accept_with-Taken now job r none e h = skipped_it refl
accept_with-Taken now job r (some db) e h =
    ended_it job refl e refl refl
      (same-EndsIn (finalize_own_run-jobs now job.scheduled_job_run_id db) h)

pub and_right : (a b : Bool) → (a && b) ≡ true → b ≡ true
and_right true b e = e
and_right false b e = ground arith

report_to-Taken :
    (now : ℕ) (meter : Meter) (item : JobResultItem) (r : Report) (job : Option Job)
    → ((j : Job) → job ≡ some j → IsConsistent j)
    → Taken r job (report_to now meter item r job)
report_to-Taken now meter item r none h = skipped_it refl
report_to-Taken now meter item r (some job) h = elim (Bool-cases (is_reportable meter job)) [
  | inl e ↦ rw e (
      accept_with-Taken now job r _ (and_right _ (is_running job) e) (
        finish_reported-Ends now job meter item r.db
          (running-IsHeld job (h job refl) (and_right _ (is_running job) e)) job.job_type))
  | inr e ↦ rw e (skipped_it refl)
]

pub report_one-Taken :
    (now : ℕ) (meter : Meter) (item : JobResultItem) (r : Report)
    → All IsConsistent r.db.jobs
    → Taken r (get_job r.db item.job_id) (report_one now meter item r)
unfolding report_one
report_one-Taken now meter item r all =
    report_to-Taken now (current_meter meter r.db) item r (get_job r.db item.job_id)
      λ j e. All-find_row IsConsistent _ r.db.jobs j e all
