-- ===== src/Backend/Worker/Overlap.antt =====
-- Several workers at once. A worker selects and locks a row (`FOR UPDATE SKIP LOCKED`), commits the
-- claim, and later carries its job out; steps of other workers may come in between.
pub mod Exclusive
use rise_sun.Common.{
  ℕ, List, [], ◌∷◌, Bool, true, false, not, Option, none, some, ◌≡◌, ◌≢◌, refl, sym,
}
use rise_sun.Common.{
  ◌==◌, ==→eq, eq→==, ne→==, ◌&&◌, if◌then◌else◌, All, arith, Bool-cases, inl, inr,
}
use rise_sun.Common.{ap, ◌∙◌}
use rise_sun.Backend.Jobs.{Job, JobStatus, queued, running, is_queued}
use rise_sun.Backend.Db.{Db, put_job, get_meter}
use rise_sun.Backend.Tables.{where_rows, update_rows, is_in, map_rows, first_by}
use rise_sun.Backend.Tables.Laws.{All-where_rows, All-first_by, All-update_rows}
use rise_sun.Backend.Calls.{Env, GatewayClient}
use rise_sun.Backend.Rewrites.{IsConsistent, IsHeld, Ends, Rewrites}
use rise_sun.Backend.Outcomes.Rows.{HeldIn, EndsIn}
use rise_sun.Backend.Handlers.Rows.{IsHeld-Holds}
use rise_sun.Backend.Queue.{is_claimable, claimable_jobs, select_next_job, claimed, suits_meter}
use rise_sun.Backend.Queue.Order.{by_rank, select_next_job_lem}
use rise_sun.Backend.Worker.{run_job}
use rise_sun.Backend.Worker.Settles.{selected_waits, claimed-IsHeld, run_job-Ends}
use rise_sun.Backend.Consistency.{AllConsistent, Rewrites-AllConsistent}

pub data Stage : Type 0 where
  locking carrying : Stage

-- What a worker is at, with the row as it has read or written it.
pub record Task : Type 0 where
  pub worker : ℕ
  pub stage : Stage
  pub job : Job

pub record Pool : Type 0 where
  pub db : Db
  pub tasks : List Task

abbrev pub is_locking : Stage → Bool
is_locking locking = true
is_locking carrying = false

-- The rows that are locked: those between a selection and its commit.
unfoldable pub lock_of : List Task → ℕ → Bool
lock_of [] key = false
lock_of (t ∷ ts) key =
    let rest = lock_of ts key in if (t.job).id == key && is_locking t.stage then true else rest

-- The first list is the second one with a task more.
pub data Takes (t : Task) : List Task → List Task → Type 0 where
  first : (ts : List Task) → Takes t (t ∷ ts) ts
  behind : {ts rest : List Task} (u : Task) → Takes t ts rest → Takes t (u ∷ ts) (u ∷ rest)

abbrev pub task : ℕ → Stage → Job → Task
task worker stage job = record { worker = worker; stage = stage; job = job }

abbrev pub pool : Db → List Task → Pool
pool db tasks = record { db = db; tasks = tasks }

pub data Move (env : Env) (client : GatewayClient) : Pool → Pool → Type 0 where
  locks :
      (worker : ℕ) (db : Db) (tasks : List Task) (job : Job)
      → select_next_job (lock_of tasks) db ≡ some job
      → Move env client (pool db tasks) (pool db (task worker locking job ∷ tasks))
  commits :
      (worker now : ℕ) (db : Db) (tasks rest : List Task) (job : Job)
      → Takes (task worker locking job) tasks rest
      → Move env client
          (pool db tasks)
          (pool (put_job (claimed now job) db) (task worker carrying (claimed now job) ∷ rest))
  finishes :
      (worker later : ℕ) (db : Db) (tasks rest : List Task) (job : Job)
      → Takes (task worker carrying job) tasks rest
      → Move env client (pool db tasks) (pool (run_job env client later job db) rest)

abbrev pub Apart : Task → Task → Type 0
Apart t u = (t.job).id ≢ (u.job).id

-- No two tasks have the same job.
abbrev pub Exclusive : List Task → Type 0
Exclusive [] = Unit {0}
Exclusive (t ∷ ts) = (All (Apart t) ts) × (Exclusive ts)

pub data Moves (env : Env) (client : GatewayClient) (start : Pool) : Pool → Type 0 where
  none_yet : Moves env client start start
  after :
      {s s' : Pool} → Moves env client start s → Move env client s s' → Moves env client start s'
