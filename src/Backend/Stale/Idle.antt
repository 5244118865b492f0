-- ===== src/Backend/Stale/Idle.antt =====
-- Runs whose jobs have all ended: what leaves them and their rows alone.
use rise_sun.Common.{ℕ, List, [], ◌∷◌, Bool, true, false, some, ◌≡◌, refl}
use rise_sun.Common.{if◌then◌else◌, Bool-cases, inl, inr, arith}
use rise_sun.Common.{Option, none, All, ◌==◌, ==→eq, ap, ◌∙◌}
use rise_sun.Backend.Tables.{find_row}
use rise_sun.Backend.Tables.Laws.{find_row-holds}
use rise_sun.Backend.Worker.{finalize_own_run}
use rise_sun.Backend.Finalizers.{finalize_run, finalized_run}
use rise_sun.Backend.Finalizers.Runs.{notify_if-runs}
use rise_sun.Backend.Stale.{finalize_runs}
use rise_sun.Backend.Jobs.{Job, is_outstanding}
use rise_sun.Backend.Db.{Db, ScheduledJobRun, get_run}
use rise_sun.Backend.Tables.{any, update_rows, where_rows}
use rise_sun.Backend.Finalizers.{
  siblings_of, is_key, run_is_running, maybe_finalize_scheduled_job_run,
}

pub neither : (b c : Bool) → (if b then true else c) ≡ false → (b ≡ false) × (c ≡ false)
neither true c e = ground arith
neither false c e = (refl, e)

-- Jobs of which those of a run have all ended.
abbrev pub IsIdleRun : ℕ → List Job → Type 0
IsIdleRun run_id jobs =
    any is_outstanding (where_rows (λ j. is_key run_id j.scheduled_job_run_id) jobs) ≡ false

-- Waiting jobs, or running ones.
abbrev pub IsOpen : (Job → Bool) → Type 0
IsOpen p = (j : Job) → p j ≡ true → is_outstanding j ≡ true

-- An update of open jobs, which keeps their runs, does not touch those of the run.
pub update-IsIdleRun :
    (p : Job → Bool) (f : Job → Job) (run_id : ℕ) (jobs : List Job)
    → IsOpen p
    → ((j : Job) → (f j).scheduled_job_run_id ≡ j.scheduled_job_run_id)
    → IsIdleRun run_id jobs
    → IsIdleRun run_id (update_rows p f jobs)
unfolding where_rows update_rows any
update-IsIdleRun p f run_id [] outs same e = refl
update-IsIdleRun p f run_id (j ∷ js) outs same e =
    elim (Bool-cases (is_key run_id j.scheduled_job_run_id)) [
      | inl k ↦ elim (Bool-cases (p j)) [
        | inl q ↦ absurd (ground (arith, outs j q, (neither (is_outstanding j) _ (rw k at e)).0))
        | inr q ↦
            rw (q, k, (neither (is_outstanding j) _ (rw k at e)).0)
              (update-IsIdleRun p f run_id js outs same
                (neither (is_outstanding j) _ (rw k at e)).1)
      ]
      | inr k ↦ elim (Bool-cases (p j)) [
        | inl q ↦ rw (q, same j, k) (update-IsIdleRun p f run_id js outs same (rw k at e))
        | inr q ↦ rw (q, k) (update-IsIdleRun p f run_id js outs same (rw k at e))
      ]
    ]

-- The open jobs of the table belong to other runs.
pub open_elsewhere :
    (p : Job → Bool) (run_id : ℕ) (jobs : List Job)
    → IsOpen p
    → IsIdleRun run_id jobs
    → All (λ j. is_key run_id j.scheduled_job_run_id ≡ false) (where_rows p jobs)
unfolding where_rows any
open_elsewhere p run_id [] outs e = tt
open_elsewhere p run_id (j ∷ js) outs e = elim (Bool-cases (is_key run_id j.scheduled_job_run_id)) [
  | inl k ↦ elim (Bool-cases (p j)) [
    | inl q ↦ absurd (ground (arith, outs j q, (neither (is_outstanding j) _ (rw k at e)).0))
    | inr q ↦ rw q (open_elsewhere p run_id js outs (neither (is_outstanding j) _ (rw k at e)).1)
  ]
  | inr k ↦ elim (Bool-cases (p j)) [
    | inl q ↦ rw q (k, open_elsewhere p run_id js outs (rw k at e))
    | inr q ↦ rw q (open_elsewhere p run_id js outs (rw k at e))
  ]
]

-- A row that is written under another key.
find_row-elsewhere :
    (key : ℕ) (new : ScheduledJobRun) (runs : List ScheduledJobRun)
    → (new.id == key) ≡ false
    → find_row (λ r. r.id == key) (update_rows (λ r. r.id == new.id) (λ r. new) runs)
      ≡ find_row (λ r. r.id == key) runs
unfolding find_row update_rows
find_row-elsewhere key new [] apart = refl
find_row-elsewhere key new (r ∷ rs) apart = elim (Bool-cases (r.id == new.id)) [
  | inl q ↦
      rw (q, apart, ap (λ k. k == key) (==→eq r.id new.id q) ∙ apart)
        (find_row-elsewhere key new rs apart)
  | inr q ↦ rw q (ap (λ o. if r.id == key then some r else o) (find_row-elsewhere key new rs apart))
]

module _ (run_id now : ℕ) where
  finalize_run-elsewhere :
      (siblings : List Job) (other : ScheduledJobRun) (db : Db)
      → (other.id == run_id) ≡ false
      → get_run (finalize_run now siblings (some other) db) run_id ≡ get_run db run_id
  finalize_run-elsewhere siblings other db apart = elim (Bool-cases (run_is_running other)) [
    | inl e ↦ rw e (
        ap (find_row (λ r. r.id == run_id)) (notify_if-runs _ _ _)
        ∙ find_row-elsewhere run_id (finalized_run now siblings other) db.runs apart)
    | inr e ↦ rw e refl
  ]

  finalize-elsewhere :
      (other : ℕ) (db : Db)
      → (other == run_id) ≡ false
      → get_run (maybe_finalize_scheduled_job_run now other db) run_id ≡ get_run db run_id
  unfolding maybe_finalize_scheduled_job_run
  finalize-elsewhere other db apart =
      elim (Bool-cases (any is_outstanding (siblings_of other db))) [
        | inl w ↦ rw w refl
        | inr w ↦ rw w (go (get_run db other) refl)
      ]
    where
      go :
          (o : Option ScheduledJobRun)
          → get_run db other ≡ o
          → get_run (finalize_run now (siblings_of other db) o db) run_id ≡ get_run db run_id
      go none e = refl
      go (some run) e = finalize_run-elsewhere (siblings_of other db) run db (
          ap (λ k. k == run_id) (==→eq _ _ (find_row-holds (λ r. r.id == other) db.runs run e))
          ∙ apart)

  pub finalize_runs-elsewhere :
      (jobs : List Job) (db : Db)
      → All (λ j. is_key run_id j.scheduled_job_run_id ≡ false) jobs
      → get_run (finalize_runs now jobs db) run_id ≡ get_run db run_id
  unfolding finalize_runs
  finalize_runs-elsewhere [] db h = refl
  finalize_runs-elsewhere (job ∷ jobs) db h =
      finalize_runs-elsewhere jobs _ h.1 ∙ own job.scheduled_job_run_id h.0
    where
      own :
          (o : Option ℕ)
          → is_key run_id o ≡ false
          → get_run (finalize_own_run now o db) run_id ≡ get_run db run_id
      own none k = refl
      own (some other) k = finalize-elsewhere other db k
