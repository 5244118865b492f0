-- ===== src/Backend/Worker/Overlap/Exclusive.antt =====
-- That no two workers have the same job.
use rise_sun.Common.{ℕ, List, [], ◌∷◌, Bool, true, false, not, some, ◌≡◌, ◌≢◌, refl, sym}
use rise_sun.Common.{◌==◌, ◌&&◌, if◌then◌else◌, All, arith}
use rise_sun.Common.{ap, ◌∙◌}
use rise_sun.Backend.Jobs.{Job, queued, is_queued}
use rise_sun.Backend.Db.{Db, put_job}
use rise_sun.Backend.Tables.{update_rows}
use rise_sun.Backend.Tables.Laws.{All-where_rows, All-first_by, All-update_rows}
use rise_sun.Backend.Calls.{Env, GatewayClient}
use rise_sun.Backend.Rewrites.{IsConsistent, IsHeld, write_same}
use rise_sun.Backend.Outcomes.Rows.{EndsIn}
use rise_sun.Backend.Handlers.Rows.{IsHeld-Holds}
use rise_sun.Backend.Queue.{is_claimable, claimable_jobs, select_next_job, claimed}
use rise_sun.Backend.Queue.Order.{by_rank, select_next_job_lem}
use rise_sun.Backend.Worker.{run_job}
use rise_sun.Backend.Worker.Settles.{selected_waits, claimed-IsHeld, run_job-Ends}
use rise_sun.Backend.Consistency.{AllConsistent, Rewrites-AllConsistent}
use rise_sun.Backend.Worker.Overlap.{
  Stage, locking, carrying, Task, Pool, is_locking, lock_of, Takes, first, behind, task, pool, Move,
  locks, commits, finishes, Apart, Exclusive, Moves, none_yet, after,
}

-- Every row with the key of the job is the job.
abbrev IsRow : Db → Job → Type 0
IsRow db job = All (λ j. j.id ≡ job.id → j ≡ job) db.jobs

abbrev FitsStage : Db → Stage → Job → Type 0
FitsStage db locking job = (IsConsistent job) × (is_queued job ≡ true)
FitsStage db carrying job = (IsHeld job) × (IsRow db job)

abbrev FitsTask : Db → Task → Type 0
FitsTask db t = FitsStage db t.stage t.job

taken :
    (P : Task → Type 0) {t : Task} {ts rest : List Task}
    → Takes t ts rest
    → All P ts
    → P t × All P rest
taken P (first ts) all = all
taken P (behind u s) all = ((taken P s all.1).0, (all.0, (taken P s all.1).1))

-- A task taken out is apart from those that are left.
taken-Apart :
    {t : Task} {ts rest : List Task}
    → Takes t ts rest
    → Exclusive ts
    → All (Apart t) rest × Exclusive rest
taken-Apart (first ts) x = x
taken-Apart {t} (behind u s) x = (
  ((λ e. (taken (Apart u) s x.0).0 (sym e)), (taken-Apart s x.1).0),
  ((taken (Apart u) s x.0).1, (taken-Apart s x.1).1),
)

-- What holds of each task in one database holds in another, given that they are apart from one job.
all_tasks :
    (P Q R : Task → Type 0) (ts : List Task)
    → ((t : Task) → P t → Q t → R t)
    → All P ts
    → All Q ts
    → All R ts
all_tasks P Q R [] h p q = tt
all_tasks P Q R (t ∷ ts) h p q = (h t p.0 q.0, all_tasks P Q R ts h p.1 q.1)

-- A table whose only new row has another key.
IsRow-update :
    (job new : Job) (key : ℕ) (jobs : List Job)
    → new.id ≢ job.id
    → All (λ j. j.id ≡ job.id → j ≡ job) jobs
    → All (λ j. j.id ≡ job.id → j ≡ job) (update_rows (λ j. j.id == key) (λ j. new) jobs)
IsRow-update job new key jobs apart all =
    All-update_rows (λ j. j.id ≡ job.id → j ≡ job) _ (λ j. new) jobs
      (λ j e h same. absurd (apart same)) all

-- After its own row is written, every row with the key is the new one.
IsRow-written :
    (new : Job) (jobs : List Job)
    → All (λ j. j.id ≡ new.id → j ≡ new) (update_rows (λ j. j.id == new.id) (λ j. new) jobs)
unfolding update_rows
IsRow-written new [] = tt
IsRow-written new (j ∷ js) = (go (j.id == new.id) refl, IsRow-written new js)
  where
    go :
        (b : Bool)
        → (j.id == new.id) ≡ b
        → (if b then new else j).id ≡ new.id
        → (if b then new else j) ≡ new
    go true e same = refl
    go false e same = ground (arith, e, same)

record Inv (s : Pool) : Type 0 where
  consistent : AllConsistent s.db
  exclusive : Exclusive s.tasks
  fits : All (FitsTask s.db) s.tasks

selected_row :
    (P : Job → Type 0) (locked : ℕ → Bool) (db : Db) (job : Job)
    → All P db.jobs
    → select_next_job locked db ≡ some job
    → P job × (is_claimable locked db job ≡ true)
selected_row P locked db job all e =
    All-first_by (λ j. P j × (is_claimable locked db j ≡ true)) by_rank (claimable_jobs locked db)
      job (sym (select_next_job_lem locked db) ∙ e)
      (All-where_rows P (is_claimable locked db) db.jobs all)

not_locked : (a b c : Bool) → (a && (not b && c)) ≡ true → b ≡ false
not_locked a false c e = refl
not_locked true true c e = ground arith
not_locked false true c e = ground arith

-- A held job is not one that waits.
held_not_waiting : (j k : Job) → j ≡ k → is_queued j ≡ true → IsHeld k → ⊥
held_not_waiting j k e waits held = ground (arith, sym waits ∙ ap is_queued e ∙ runs)
  where
    runs : is_queued k ≡ false
    runs = ap (λ s. elim s [ queued ↦ true | _ ↦ false ]) held.0

neither : (b c : Bool) → (if b then true else c) ≡ false → (b ≡ false) × (c ≡ false)
neither true c e = ground arith
neither false c e = (refl, e)

selected-Apart :
    (db : Db) (job : Job) (worker : ℕ) (ts : List Task)
    → ((P : Job → Type 0) → All P db.jobs → P job)
    → is_queued job ≡ true
    → lock_of ts job.id ≡ false
    → All (FitsTask db) ts
    → All (Apart (task worker locking job)) ts
unfolding lock_of
selected-Apart db job worker [] row waits free fits = tt
selected-Apart db job worker (t ∷ ts) row waits free fits = (
  one t.stage t.job (neither _ _ free).0 fits.0,
  selected-Apart db job worker ts row waits (neither _ _ free).1 fits.1,
)
  where
    one :
        (stage : Stage) (other : Job)
        → (other.id == job.id && is_locking stage) ≡ false
        → FitsStage db stage other
        → job.id ≢ other.id
    one locking other h f e = ground (arith, h, e)
    one carrying other h f e = held_not_waiting job other (row _ f.1 e) waits f.0

-- The tasks that are apart from a new row keep what fits.
still_fits :
    (db next : Db) (new : Job) (key : ℕ) (ts : List Task)
    → new.id ≡ key
    → next.jobs ≡ update_rows (λ j. j.id == key) (λ j. new) db.jobs
    → All (FitsTask db) ts
    → All (λ t. key ≢ (t.job).id) ts
    → All (FitsTask next) ts
still_fits db next new key ts its_key same fits apart =
    all_tasks (FitsTask db) (λ t. key ≢ (t.job).id) (FitsTask next) ts (λ t. one t.stage t.job) fits
      apart
  where
    one :
        (stage : Stage) (job : Job)
        → FitsStage db stage job
        → key ≢ job.id
        → FitsStage next stage job
    one locking job f h = f
    one carrying job f h =
        (f.0, rw same (IsRow-update job new key db.jobs (λ e. h (sym its_key ∙ e)) f.1))

Move-Inv :
    {env : Env} {client : GatewayClient} {s s' : Pool} → Move env client s s' → Inv s → Inv s'
Move-Inv (locks worker db tasks job e) v = record {
  consistent = v.consistent;
  exclusive = (
    selected-Apart db job worker tasks (λ P all. (selected_row P _ db job all e).0) waits.1
        (not_locked (is_queued job) _ _ (selected_row IsConsistent _ db job v.consistent e).1)
        v.fits,
    v.exclusive,
  );
  fits = (waits, v.fits);
}
  where
    waits : IsConsistent job × (is_queued job ≡ true)
    waits = selected_waits (lock_of tasks) db job v.consistent e
Move-Inv (commits worker now db tasks rest job t) v = record {
  consistent =
      All-update_rows IsConsistent _ (λ j. claimed now job) db.jobs
        (λ j e c. (held.1, held.2, held.3)) v.consistent;
  exclusive = ((taken-Apart t v.exclusive).0, (taken-Apart t v.exclusive).1);
  fits = (
    (held, IsRow-written (claimed now job) db.jobs),
    still_fits db (put_job (claimed now job) db) (claimed now job) job.id rest refl refl
        (taken (FitsTask db) t v.fits).1 (taken-Apart t v.exclusive).0,
  );
}
  where
    held : IsHeld (claimed now job)
    held =
        claimed-IsHeld now job (taken (FitsTask db) t v.fits).0.0 (taken (FitsTask db) t v.fits).0.1
Move-Inv {env} {client} (finishes worker later db tasks rest job t) v = record {
  consistent = Rewrites-AllConsistent v.consistent ended.ended_row;
  exclusive = (taken-Apart t v.exclusive).1;
  fits =
      still_fits db (run_job env client later job db) ended.ended_row.row job.id rest
        ended.ended_row.row_id ended.ended_row.rows (taken (FitsTask db) t v.fits).1
        (taken-Apart t v.exclusive).0;
}
  where
    mine : (IsHeld job) × (IsRow db job)
    mine = (taken (FitsTask db) t v.fits).0

    ended : EndsIn job db.jobs (run_job env client later job db)
    ended = run_job-Ends env client later job db.jobs db mine.0 (record {
      held_row = record {
        row = job;
        row_id = refl;
        row_fits = IsHeld-Holds mine.0;
        rows = write_same job db.jobs mine.1;
      };
    })

Moves-Inv :
    {env : Env} {client : GatewayClient} {start last : Pool}
    → Inv start
    → Moves env client start last
    → Inv last
Moves-Inv v none_yet = v
Moves-Inv v (after moves move) = Move-Inv move (Moves-Inv v moves)

-- Any number of workers, whose selections, commits and handlers come in any order, never have the
-- same job: from consistent jobs and no task, the tasks at any time are about different jobs, so no
-- job is carried out by two workers at once, nor selected while another worker has it. No clean-up
-- runs in between: one that puts back a running job would let it be selected again.
pub Moves-Exclusive :
    (env : Env) (client : GatewayClient) (db : Db) (last : Pool)
    → AllConsistent db
    → Moves env client (pool db []) last
    → Exclusive last.tasks
Moves-Exclusive env client db last all moves = (Moves-Inv start moves).exclusive
  where
    start : Inv (pool db [])
    start = record { consistent = all; exclusive = tt; fits = tt }
