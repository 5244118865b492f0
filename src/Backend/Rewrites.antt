-- ===== src/Backend/Rewrites.antt =====
-- What a handler does to the table of jobs: it writes the row of its own job, and no other.
use rise_sun.Common.{ℕ, List, false, Option, none, some, ◌==◌, eq→==, ◌≡◌}
use rise_sun.Common.{◌∙◌, ap, sym, refl, [], ◌∷◌, Bool, true, ==→eq, All, if◌then◌else◌}
use rise_sun.Backend.Jobs.{Job, JobStatus, JobError, queued, running, succeeded, failed, is_running}
use rise_sun.Backend.Tables.{update_rows}
use rise_sun.Backend.Tables.Laws.{update_twice}

abbrev pub IsGiven {ℓ} : {A : Type ℓ} → Option A → Type 0
IsGiven none = ⊥
IsGiven (some a) = Unit {0}

-- A job that waits has no times and no error; one that runs has been started; one that has ended
-- has the time of its end, and an error where it has failed.
abbrev pub Fits : JobStatus → Option ℕ → Option ℕ → Option JobError → Type 0
Fits queued started finished error = (started ≡ none) × (finished ≡ none) × (error ≡ none)
Fits running started finished error = IsGiven started × (finished ≡ none) × (error ≡ none)
Fits succeeded started finished error = IsGiven finished × (error ≡ none)
Fits failed started finished error = IsGiven finished × IsGiven error

abbrev pub IsConsistent : Job → Type 0
IsConsistent job = Fits job.status job.started_at job.finished_at job.error

-- A job that a worker holds.
abbrev pub IsHeld : Job → Type 0
IsHeld job =
    (job.status ≡ running)
    × (IsGiven job.started_at)
    × (job.finished_at ≡ none)
    × (job.error ≡ none)

-- What no handler changes.
abbrev pub Keeps : Job → Job → Type 0
Keeps job new =
    (new.id ≡ job.id)
    × (new.job_type ≡ job.job_type)
    × (new.meter_id ≡ job.meter_id)
    × (new.scheduled_job_run_id ≡ job.scheduled_job_run_id)
    × (new.payload ≡ job.payload)
    × (new.created_at ≡ job.created_at)

-- How a job may be left: not running, with what its new status asks for.
pub record Ends (job : Job) (new : Job) : Type 0 where
  pub kept : Keeps job new
  pub not_running : is_running new ≡ false
  pub consistent : IsConsistent new

-- The job while it is held.
pub record Holds (job : Job) (new : Job) : Type 0 where
  pub kept : Keeps job new
  pub held : IsHeld new

-- The table `new` is `old` with the row of `job` replaced by one that satisfies `P`.
pub record Rewrites (P : Job → Type 0) (key : ℕ) (old new : List Job) : Type 0 where
  pub row : Job
  pub row_id : row.id ≡ key
  pub row_fits : P row
  pub rows : new ≡ update_rows (λ j. j.id == key) (λ j. row) old

pub update_row :
    {P Q : Job → Type 0} {key : ℕ} {old new : List Job} (job : Job)
    → Rewrites P key old new
    → job.id ≡ key
    → Q job
    → Rewrites Q key old (update_rows (λ j. j.id == job.id) (λ j. job) new)
update_row {key = key} {old = old} {new = new} job r e q = record {
  row = job;
  row_id = e;
  row_fits = q;
  rows =
      ap (λ k. update_rows (λ j. j.id == k) (λ j. job) new) e
      ∙ ap (update_rows (λ j. j.id == key) (λ j. job)) r.rows
      ∙ update_twice (λ j. j.id == key) (λ j. r.row) (λ j. job) old (λ x. eq→== _ _ r.row_id);
}

-- Writing the row that is there already changes nothing.
pub write_same :
    (job : Job) (jobs : List Job)
    → All (λ j. j.id ≡ job.id → j ≡ job) jobs
    → jobs ≡ update_rows (λ j. j.id == job.id) (λ j. job) jobs
unfolding update_rows
write_same job [] all = refl
write_same job (j ∷ js) all =
    ap (λ r. r ∷ js) (sym (go (j.id == job.id) refl))
    ∙ ap (λ r. (if j.id == job.id then job else j) ∷ r) (write_same job js all.1)
  where
    go : (b : Bool) → (j.id == job.id) ≡ b → (if b then job else j) ≡ j
    go true e = sym (all.0 (==→eq _ _ e))
    go false e = refl
