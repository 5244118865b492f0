-- ===== src/Backend/Consistency/Reports.antt =====
-- The same of the reports of the gateway.
use rise_sun.Common.{ltb, ◌&&◌, List, [], ◌∷◌, Option, none, some, refl}
use rise_sun.Backend.Billing.{
  add_serial, add_serials, create_batch, accept_new, new_items, key_given, with_key, answer_for,
  same_operation, same_texts, serials_of, max_batch_size, has_key, operation_type,
}
use rise_sun.Backend.Db.{DisconnectBatch, DisconnectBatchOperation, Meter}
use rise_sun.Backend.Finalizers.Jobs.{finalize_batch_if_complete-jobs}
use rise_sun.Backend.Tables.{find_row}
use rise_sun.Backend.Jobs.{JobType}
use rise_sun.Common.{ℕ, List, [], ◌∷◌, Bool, true, false, Option, none, some, ◌≡◌, refl, length}
use rise_sun.Common.{if◌then◌else◌, inl, inr, Bool-cases}
use Prim.Native.String.{String}
use rise_sun.Backend.Jobs.{Job, is_running}
use rise_sun.Backend.Db.{Db, Meter, get_job, LoadProfileData}
use rise_sun.Backend.Tables.{any}
use rise_sun.Backend.Tables.Laws.{All-find_row}
use rise_sun.Backend.Calls.{Env, Attempt, done, raised, ◌>>=◌, or_raise, LoadProfileRow}
use rise_sun.Backend.Rewrites.{IsConsistent}
use rise_sun.Backend.Outcomes.Rows.{finalize_read_load_profile_job-Ends}
use rise_sun.Backend.Finalizers.Jobs.{SameJobs, SameJobs-self}
use rise_sun.Backend.Handlers.{
  insert_load_profile_row, insert_row_at, insert_rows, is_row, profile_row,
}
use rise_sun.Backend.Handlers.Rows.{IsHeld-Holds}
use rise_sun.Backend.Worker.Settles.{finalize_own_run-jobs}
use rise_sun.Backend.Report.{
  JobResultItem, ProfileReport, report_for, report_job_results, meter_by_serial, is_reportable,
  report_error, profile_ended, profile_for, report_load_profile_results,
}
use rise_sun.Backend.Report.Rows.{running-IsHeld, and_right, here-Writes}
use rise_sun.Backend.Consistency.{
  AllConsistent, Rewrites-AllConsistent, SameJobs-AllConsistent, report_all-AllConsistent,
}

-- Rows of the load profile are another table.
abbrev StoresOnly : Db → Attempt Db → Type 0
StoresOnly db (done next) = SameJobs db next
StoresOnly db (raised next) = Unit {0}

insert-jobs :
    (row : LoadProfileData) (first db : Db)
    → SameJobs first db
    → SameJobs first (insert_load_profile_row row db)
unfolding insert_load_profile_row
insert-jobs row first db h = go (any (is_row row) db.load_profile)
  where
    go :
        (b : Bool)
        → SameJobs first (if b then db else record db { load_profile = row ∷ db.load_profile })
    go true = h
    go false = record { same_jobs = h.same_jobs }

module _ (env : Env) (meter_id : ℕ) (obis : String) (job_id : ℕ) (first : Db) where
  insert_rows-StoresOnly :
      (rows : List LoadProfileRow) (db : Db)
      → SameJobs first db
      → StoresOnly first (insert_rows env meter_id obis job_id rows db)
  unfolding insert_rows insert_row_at
  insert_rows-StoresOnly [] db h = h
  insert_rows-StoresOnly (row ∷ rows) db h =
      go (env.fromisoformat row.timestamp_iso)
        λ t. insert_rows-StoresOnly rows _ (insert-jobs (stored t) first db h)
    where
      stored : ℕ → LoadProfileData
      stored t = profile_row meter_id obis job_id row.values t

      go :
          (o : Option ℕ)
          → ((t : ℕ)
              → StoresOnly first (
                  insert_rows env meter_id obis job_id rows
                    (insert_load_profile_row (stored t) db)))
          → StoresOnly first (
              (or_raise db o >>= λ t. done (insert_load_profile_row (stored t) db))
              >>= insert_rows env meter_id obis job_id rows)
      go none k = tt
      go (some t) k = k t

pub report_load_profile-AllConsistent :
    (env : Env) (now : ℕ) (serial : String) (body : ProfileReport) (db : Db)
    → AllConsistent db
    → AllConsistent (report_load_profile_results env now serial body db).1
unfolding report_load_profile_results
report_load_profile-AllConsistent env now serial body db all =
    go (meter_by_serial db serial) (get_job db body.job_id)
      λ j e. All-find_row IsConsistent _ db.jobs j e all
  where
    ended :
        (meter : Meter) (job : Job) (a : Attempt Db)
        → IsConsistent job
        → is_running job ≡ true
        → StoresOnly db a
        → AllConsistent (profile_ended now db job meter body a).1
    ended meter job (raised last) c run same = all
    ended meter job (done last) c run same =
        SameJobs-AllConsistent (finalize_own_run-jobs now job.scheduled_job_run_id _) (
          Rewrites-AllConsistent (SameJobs-AllConsistent same all)
            (finalize_read_load_profile_job-Ends (IsHeld-Holds (running-IsHeld job c run)) now last
              (here-Writes job last) meter body.obis (length body.rows)
              (report_error body)).ended_row)

    go :
        (meter : Option Meter) (job : Option Job)
        → ((j : Job) → job ≡ some j → IsConsistent j)
        → AllConsistent (profile_for env now body meter job db).1
    go none job h = all
    go (some meter) none h = all
    go (some meter) (some job) h = elim (Bool-cases (is_reportable meter job)) [
      | inl e ↦ rw e (
          ended meter job _ (h job refl) (and_right _ (is_running job) e)
            (insert_rows-StoresOnly env meter.id body.obis job.id db body.rows db SameJobs-self))
      | inr e ↦ rw e all
    ]

pub report_job_results-AllConsistent :
    (now : ℕ) (serial : String) (items : List JobResultItem) (db : Db)
    → AllConsistent db
    → AllConsistent (report_job_results now serial items db).db
unfolding report_job_results report_for
report_job_results-AllConsistent now serial items db all = go (meter_by_serial db serial)
  where
    go : (meter : Option Meter) → AllConsistent (report_for now meter items db).db
    go none = all
    go (some meter) = report_all-AllConsistent now meter items _ all

add_serials-AllConsistent :
    (now : ℕ) (job_type : JobType) (pk : ℕ) (batch_id : String) (ss : List String) (db : Db)
    → AllConsistent db
    → AllConsistent (add_serials now job_type pk batch_id ss db)
unfolding add_serials
add_serials-AllConsistent now job_type pk batch_id [] db all = all
add_serials-AllConsistent now job_type pk batch_id (s ∷ ss) db all =
    add_serials-AllConsistent now job_type pk batch_id ss _ (go (meter_by_serial db s))
  where
    go : (meter : Option Meter) → AllConsistent (add_serial now job_type pk batch_id s meter db)
    go none = all
    go (some meter) = ((refl, refl, refl), all)

pub create_batch-AllConsistent :
    (now : ℕ) (fresh : String) (operation : DisconnectBatchOperation) (key : Option String)
    (api_key_id : ℕ) (serials : List String) (db : Db)
    → AllConsistent db
    → AllConsistent (create_batch now fresh operation key api_key_id serials db).1
unfolding create_batch accept_new new_items
create_batch-AllConsistent now fresh operation key api_key_id serials db all = go (key_given key)
  where
    fits :
        (k : String) (o : Option DisconnectBatch)
        → AllConsistent (answer_for now fresh operation k api_key_id serials o db).1
    fits k (some batch) =
        elim (Bool-cases (
          same_operation batch.operation operation
          && same_texts (serials_of batch.id db) serials)) [ inl e ↦ rw e all | inr e ↦ rw e all ]
    fits k none =
        SameJobs-AllConsistent
          (finalize_batch_if_complete-jobs now db.next_batch
            (new_items now fresh operation k api_key_id serials db))
          (add_serials-AllConsistent now (operation_type operation) db.next_batch fresh serials _
            all)

    go :
        (k : Option String) → AllConsistent (with_key now fresh operation api_key_id serials k db).1
    go none = all
    go (some k) = elim (Bool-cases (ltb max_batch_size (length serials))) [
      | inl e ↦ rw e all
      | inr e ↦ rw e (fits k (find_row (has_key api_key_id k) db.batches))
    ]
