-- ===== src/Backend/Trigger/Fresh.antt =====
-- For which meters a schedule creates jobs.
use rise_sun.Common.{ℕ, List, [], ◌∷◌, ◌++◌, Bool, true, false, not, some, ◌≡◌, refl}
use rise_sun.Common.{
  ◌==◌, ==→eq, eq→==, ◌&&◌, if◌then◌else◌, Bool-cases, inl, inr, All, arith, ◌⊎◌, ◌||◌,
}
use rise_sun.Common.{All-append, sym, ◌∙◌, append_assoc}
use Prim.Native.String.{String}
use rise_sun.Backend.Jobs.{Job, Payload, is_queued, is_outstanding, same_type}
use rise_sun.Backend.Db.{Db, Meter, ScheduledJob}
use rise_sun.Backend.Tables.{where_rows, map_rows, is_in, any}
use rise_sun.Backend.Calls.{Env}
use rise_sun.Backend.Scheduler.{
  in_group, ids_of, meter_ids_of, without, outstanding_job_meter_ids, free_meters, resolve_payloads,
}
use rise_sun.Backend.Trigger.{pairs_for, new_job, add_jobs, start_run, trigger_pairs, trigger_one}
use rise_sun.Backend.Trigger.Pairs.{OfPair, typed_pairs}

skip_key :
    (key : ℕ) (j : Job) (b : Bool) (js : List Job)
    → (j.meter_id == key) ≡ false
    → is_in key (meter_ids_of (if b then j ∷ js else js)) ≡ false
    → is_in key (meter_ids_of js) ≡ false
unfolding map_rows is_in
skip_key key j true js k e = rw k at e
skip_key key j false js k e = e

-- Keys of rows that are in a list of keys and satisfy a condition.
unseen_key :
    (ids : List ℕ) (key : ℕ) (c : Job → Bool) (jobs : List Job)
    → is_in key ids ≡ true
    → is_in key (meter_ids_of (where_rows (λ j. is_in j.meter_id ids && c j) jobs)) ≡ false
    → any (λ j. j.meter_id == key && c j) jobs ≡ false
unfolding where_rows map_rows any is_in
unseen_key ids key c [] h e = refl
unseen_key ids key c (j ∷ js) h e = elim (Bool-cases (j.meter_id == key)) [
  | inl k ↦ elim (Bool-cases (c j)) [
    | inl d ↦ ground (arith, rw (at_key k, d, k) at e)
    | inr d ↦ rw (k, d) (unseen_key ids key c js h (rw (at_key k, d) at e))
  ]
  | inr k ↦ rw k (unseen_key ids key c js h (skip_key key j (is_in j.meter_id ids && c j) _ k e))
]
  where
    at_key : (j.meter_id == key) ≡ true → is_in j.meter_id ids ≡ true
    at_key k = rw (==→eq j.meter_id key k) h

is_in_more : (x k : ℕ) (ks : List ℕ) → is_in x ks ≡ true → is_in x (k ∷ ks) ≡ true
unfolding is_in
is_in_more x k ks h = ground (arith, h)

is_in_here : (x : ℕ) (ks : List ℕ) → is_in x (x ∷ ks) ≡ true
unfolding is_in
is_in_here x ks = rw (eq→== x x refl)

every_key :
    (ms : List Meter) (ids : List ℕ)
    → ((x : ℕ) → is_in x (ids_of ms) ≡ true → is_in x ids ≡ true)
    → All (λ m. is_in m.id ids ≡ true) ms
unfolding map_rows
every_key [] ids h = tt
every_key (m ∷ ms) ids h =
    (h m.id (is_in_here m.id _), every_key ms ids λ x e. h x (is_in_more x m.id _ e))

-- The meter is one of the rows.
abbrev pub IsRowOf : Meter → List Meter → Type 0
IsRowOf m [] = ⊥
IsRowOf m (row ∷ rows) = (m ≡ row) ⊎ (IsRowOf m rows)

module _ (p : Meter → Bool) where
  -- The rows of a query are rows of the table, and satisfy its condition.
  selected_rows :
      (all some_ : List Meter)
      → ((m : Meter) → IsRowOf m some_ → IsRowOf m all)
      → All (λ m. IsRowOf m all × (p m ≡ true)) (where_rows p some_)
  unfolding where_rows
  selected_rows all [] h = tt
  selected_rows all (m ∷ ms) h = elim (Bool-cases (p m)) [
    | inl e ↦ rw e ((h m (inl refl), e), selected_rows all ms λ x r. h x (inr r))
    | inr e ↦ rw e (selected_rows all ms λ x r. h x (inr r))
  ]

both : (a b : Bool) → (a && b) ≡ true → (a ≡ true) × (b ≡ true)
both true b e = (refl, e)
both false b e = ground arith

module _ (db : Db) (s : ScheduledJob) where
  -- A row of the table of meters that is active and that the schedule is for, by its list of meters
  -- or as one of all, without a job of the schedule's type that waits or runs.
  abbrev pub IsFree : Meter → Type 0
  IsFree m =
      (IsRowOf m db.meters)
      × (m.is_active ≡ true)
      × ((s.operation_params.all_active_meters || is_in m.id s.meter_ids) ≡ true)
      × (any (λ j. j.meter_id == m.id && (same_type j.job_type s.job_type && is_outstanding j))
            db.jobs
          ≡ false)

  abbrev IsInGroup : Meter → Type 0
  IsInGroup m = IsRowOf m db.meters × (in_group s m ≡ true)

  abbrev group : List Meter
  group = where_rows (in_group s) db.meters

  taken : List ℕ
  unfolding outstanding_job_meter_ids
  taken = outstanding_job_meter_ids db (ids_of group) s.job_type

  negation : (b : Bool) → not b ≡ true → b ≡ false
  negation true e = ground arith
  negation false e = refl

  unblocked :
      (ms : List Meter)
      → All IsInGroup ms
      → All (λ m. is_in m.id (ids_of group) ≡ true) ms
      → All IsFree (without taken ms)
  unfolding where_rows taken outstanding_job_meter_ids
  unblocked [] on known = tt
  unblocked (m ∷ ms) on known = elim (Bool-cases (is_in m.id taken)) [
    | inl e ↦ rw e (unblocked ms on.1 known.1)
    | inr e ↦ rw e (
      (
        on.0.0,
        (both m.is_active _ on.0.1).0,
        (both m.is_active _ on.0.1).1,
        unseen_key (ids_of group) m.id _ db.jobs known.0 e,
      ),
      unblocked ms on.1 known.1,
    )
  ]

  active_group : All IsInGroup group
  active_group = selected_rows (in_group s) db.meters db.meters λ m r. r

  free_meters-IsFree : All IsFree (free_meters db s)
  unfolding free_meters taken
  free_meters-IsFree = unblocked group active_group (every_key group (ids_of group) λ x e. e)

  -- A new job of this run, for a meter that has none of its type.
  abbrev pub IsNew : Job → Type 0
  IsNew j =
      (is_queued j ≡ true)
      × (j.job_type ≡ s.job_type)
      × (j.scheduled_job_run_id ≡ some db.next_run)
      × ((m : Meter) × (m.id ≡ j.meter_id) × IsFree m)

  -- New jobs stand in front of the old ones.
  abbrev pub Adds : List Job → List Job → Type 0
  Adds old next = (new : List Job) × (next ≡ new ++ old) × (All IsNew new)

  adds_one : (old next : List Job) (job : Job) → IsNew job → Adds (job ∷ old) next → Adds old next
  adds_one old next job h (new, e, all) = (
    new ++ (job ∷ []),
    e ∙ sym (append_assoc new (job ∷ []) old),
    All-append IsNew new (job ∷ []) all (h, tt),
  )

  added_jobs :
      (now : ℕ) (pairs : List (Meter × Payload)) (last : Db)
      → All (OfPair IsFree) pairs
      → Adds last.jobs (add_jobs now s.job_type db.next_run pairs last).jobs
  unfolding add_jobs
  added_jobs now [] last all = ([], refl, tt)
  added_jobs now ((meter, payload) ∷ pairs) last all =
      adds_one last.jobs _ (new_job now last.next_job s.job_type db.next_run meter.id payload)
        (refl, refl, refl, (meter, refl, all.0)) (added_jobs now pairs _ all.1)

  started :
      (now : ℕ) (pairs : List (Meter × Payload))
      → All (OfPair IsFree) pairs
      → Adds db.jobs (start_run now s pairs db).jobs
  unfolding start_run
  started now [] all = ([], refl, tt)
  started now (pair ∷ pairs) all = added_jobs now (pair ∷ pairs) _ all

-- `_trigger_one` only adds jobs to the table: the jobs that were there stay, in order and unchanged,
-- and each new one waits, has the type of the schedule and belongs to the run that is created with
-- it, and its meter is an active row of the table of meters, one that the schedule is for, and had
-- no job of this type that waited or ran.
pub trigger_one_adds :
    (env : Env) (local_iso : ℕ → String) (now : ℕ) (s : ScheduledJob) (db : Db)
    → Adds db s db.jobs (trigger_one env local_iso now s db).jobs
unfolding trigger_one trigger_pairs
trigger_one_adds env local_iso now s db =
    started db s now
      (pairs_for env now db s (free_meters db s) (resolve_payloads env local_iso now db s))
      (typed_pairs (IsFree db s) env now db s s.job_type (free_meters db s)
        (resolve_payloads env local_iso now db s) refl (free_meters-IsFree db s))
