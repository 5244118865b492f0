-- ===== src/Backend/Report/Again.antt =====
-- That a result is not taken twice, whatever else is reported.
use rise_sun.Common.{ℕ, suc, List, [], ◌∷◌, Bool, true, false, Option, none, some, ◌≡◌, refl}
use rise_sun.Common.{◌==◌, ==→eq, ◌∙◌, ap, sym, ◌&&◌, arith, inl, inr, Bool-cases}
use rise_sun.Backend.Jobs.{Job, is_running}
use rise_sun.Backend.Db.{Meter, get_job}
use rise_sun.Backend.Tables.{update_rows, find_row}
use rise_sun.Backend.Rewrites.{Ends, Rewrites}
use rise_sun.Backend.Report.{
  JobResultItem, Report, skip, report_to, current_meter, report_one, report_all,
}
use rise_sun.Backend.Tables.Laws.{find_row-rewritten}
use rise_sun.Backend.Report.Rows.{Taken, skipped_it, ended_it, report_one-Taken}
use rise_sun.Backend.Consistency.{AllConsistent, report_one-AllConsistent}

-- The job that the key finds, where it finds one, does not run.
abbrev IsIdle : ℕ → List Job → Type 0
IsIdle key jobs = (j : Job) → find_row (λ j. j.id == key) jobs ≡ some j → is_running j ≡ false

-- The key of a row that is replaced is that of the new row.
same_key : (x row key : ℕ) → (x == row) ≡ true → (x == key) ≡ (row == key)
same_key x row key e = rw (==→eq x row e) refl

update-IsIdle :
    (key : ℕ) (row : Job) (jobs : List Job)
    → is_running row ≡ false
    → IsIdle key jobs
    → IsIdle key (update_rows (λ j. j.id == row.id) (λ j. row) jobs)
unfolding find_row update_rows
update-IsIdle key row [] stopped idle = λ j e. ground (arith, e)
update-IsIdle key row (x ∷ xs) stopped idle = elim (Bool-cases (x.id == key)) [
  | inl k ↦ elim (Bool-cases (x.id == row.id)) [
    | inl q ↦ rw (q, sym (same_key x.id row.id key q) ∙ k) λ j e. ground (arith, e, stopped)
    | inr q ↦ rw (q, k) λ j e. idle j (rw k e)
  ]
  | inr k ↦ elim (Bool-cases (x.id == row.id)) [
    | inl q ↦
        rw (q, sym (same_key x.id row.id key q) ∙ k)
          (update-IsIdle key row xs stopped λ j e. idle j (rw k e))
    | inr q ↦ rw (q, k) (update-IsIdle key row xs stopped λ j e. idle j (rw k e))
  ]
]

not_reportable : (a b : Bool) → b ≡ false → (a && b) ≡ false
not_reportable true b e = e
not_reportable false b e = refl

skips_idle :
    (now : ℕ) (meter : Meter) (item : JobResultItem) (r : Report)
    → IsIdle item.job_id r.db.jobs
    → report_one now meter item r ≡ skip r
unfolding report_one
skips_idle now meter item r idle = go (get_job r.db item.job_id) idle
  where
    go :
        (o : Option Job)
        → ((j : Job) → o ≡ some j → is_running j ≡ false)
        → report_to now (current_meter meter r.db) item r o ≡ skip r
    go none h = refl
    go (some job) h =
        rw (not_reportable ((job.meter_id) == (current_meter meter r.db).id) _ (h job refl)) refl

-- A written row is one of its own key.
written-IsIdle :
    (key : ℕ) (job : Job) (old new : List Job)
    → Rewrites (Ends job) job.id old new
    → IsIdle key old
    → IsIdle key new
written-IsIdle key job old new r idle =
    rw (r.rows, sym r.row_id) (update-IsIdle key r.row old r.row_fits.not_running idle)

report_one-IsIdle :
    (now : ℕ) (meter : Meter) (item : JobResultItem) (key : ℕ) (r : Report)
    → AllConsistent r.db
    → IsIdle key r.db.jobs
    → IsIdle key (report_one now meter item r).db.jobs
report_one-IsIdle now meter item key r all idle = go (report_one-Taken now meter item r all)
  where
    go : {job : Option Job} {next : Report} → Taken r job next → IsIdle key next.db.jobs
    go (skipped_it e) = rw e idle
    go (ended_it j found run a b ends) = written-IsIdle key j r.db.jobs _ ends.ended_row idle

report_all-IsIdle :
    (now : ℕ) (meter : Meter) (items : List JobResultItem) (key : ℕ) (r : Report)
    → AllConsistent r.db
    → IsIdle key r.db.jobs
    → IsIdle key (report_all now meter items r).db.jobs
unfolding report_all
report_all-IsIdle now meter [] key r all idle = idle
report_all-IsIdle now meter (item ∷ items) key r all idle =
    report_all-IsIdle now meter items key _ (report_one-AllConsistent now meter item r all)
      (report_one-IsIdle now meter item key r all idle)

-- A job that has just been reported does not run.
accepted-IsIdle :
    (now : ℕ) (meter : Meter) (item : JobResultItem) (r : Report)
    → AllConsistent r.db
    → (report_one now meter item r).accepted ≡ suc r.accepted
    → IsIdle item.job_id (report_one now meter item r).db.jobs
accepted-IsIdle now meter item r all taken = go (report_one-Taken now meter item r all)
  where
    go :
        Taken r (get_job r.db item.job_id) (report_one now meter item r)
        → IsIdle item.job_id (report_one now meter item r).db.jobs
    go (skipped_it e) = absurd (omega (arith, sym (ap (λ s. s.accepted) e) ∙ taken))
    go (ended_it j found run a b ends) =
        λ k e. ground (arith, sym e ∙ written, ends.ended_row.row_fits.not_running)
      where
        written :
            find_row (λ x. x.id == item.job_id) (report_one now meter item r).db.jobs
            ≡ some ends.ended_row.row
        written = rw (ends.ended_row.rows) (
            find_row-rewritten (λ x. x.id) item.job_id r.db.jobs j ends.ended_row.row found
              ends.ended_row.row_id)

-- With consistent jobs, once a result was accepted for a job, and after any list of results that a
-- meter reports then, for this job and for others, one more result for the same job, of whatever
-- content, time and meter, is counted as skipped and leaves the database as it is. No claim comes in
-- between: a job that the accepted result has put back may be claimed, and then reported, again.
pub report_repeated :
    (now between later : ℕ) (meter any_meter other : Meter) (item again : JobResultItem)
    (items : List JobResultItem) (r : Report)
    → AllConsistent r.db
    → (report_one now meter item r).accepted ≡ suc r.accepted
    → again.job_id ≡ item.job_id
    → report_one later other again
        (report_all between any_meter items (report_one now meter item r))
      ≡ skip (report_all between any_meter items (report_one now meter item r))
report_repeated now between later meter any_meter other item again items r all taken same =
    skips_idle later other again _ (
      rw same (
        report_all-IsIdle between any_meter items item.job_id _
          (report_one-AllConsistent now meter item r all)
          (accepted-IsIdle now meter item r all taken)))
