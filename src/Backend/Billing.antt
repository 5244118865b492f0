-- ===== src/Backend/Billing.antt =====
-- backend/app/api/billing.py, `_create_batch`: a batch of disconnections or reconnections from the
-- billing system. The public text of a new batch, which is random, is an argument.
-- Of the answer there is the text of the batch; its count, status and address are not modelled, nor
-- are the reason that the client gives and the details of the audit.
pub mod Texts
pub mod Again
use rise_sun.Common.{ℕ, suc, List, [], ◌∷◌, Bool, true, false, Option, none, some, ltb, ◌==◌}
use rise_sun.Common.{◌&&◌, ◌||◌, if◌then◌else◌, length, not}
use Prim.Native.String.{String}
use text.Mathlib.Text.{◌==◌ as str_eq}
use rise_sun.Backend.Jobs.{
  Job, JobType, JobStatus, queued, disconnect, reconnect, Payload, no_payload,
}
use rise_sun.Backend.Db.{
  Db, Meter, DisconnectBatch, DisconnectBatchOperation, batch_disconnect, batch_reconnect,
  batch_queued, DisconnectBatchItem, DisconnectBatchItemStatus, item_queued, item_failed, AuditLog,
  batch_object,
}
use rise_sun.Backend.Tables.{find_row, where_rows, map_rows}
use rise_sun.Backend.Outcomes.{record_audit}
use rise_sun.Backend.Finalizers.{items_of, finalize_batch_if_complete}
use rise_sun.Backend.Report.{meter_by_serial}
use rise_sun.Backend.Trigger.{add_job}

pub data BillingError : Type 0 where
  idempotency_key_required batch_too_large duplicate_idempotency_key : BillingError

-- The batch that is answered, by its public text, or the error.
pub data BatchAnswer : Type 0 where
  accepted_batch : String → BatchAnswer
  refused : BillingError → BatchAnswer

abbrev pub max_batch_size : ℕ
max_batch_size = 500

abbrev pub same_operation : DisconnectBatchOperation → DisconnectBatchOperation → Bool
same_operation batch_disconnect batch_disconnect = true
same_operation batch_reconnect batch_reconnect = true
same_operation _ _ = false

abbrev pub operation_type : DisconnectBatchOperation → JobType
operation_type batch_disconnect = disconnect
operation_type batch_reconnect = reconnect

abbrev pub operation_audit_action : DisconnectBatchOperation → String
operation_audit_action batch_disconnect = "billing.disconnect_batch"
operation_audit_action batch_reconnect = "billing.reconnect_batch"

unfoldable pub has_text : String → List String → Bool
has_text s [] = false
has_text s (t ∷ ts) = let rest = has_text s ts in if str_eq t s then true else rest

unfoldable pub all_in_texts : List String → List String → Bool
unfolding has_text
all_in_texts [] ts = true
all_in_texts (s ∷ ss) ts = has_text s ts && all_in_texts ss ts

-- `set(a) == set(b)`.
abbrev pub same_texts : List String → List String → Bool
same_texts a b = all_in_texts a b && all_in_texts b a

abbrev pub serials_of : ℕ → Db → List String
serials_of pk db = map_rows (λ i. i.meter_serial) (items_of pk db)

abbrev pub add_item : DisconnectBatchItem → Db → Db
add_item item db = record db { items = item ∷ db.items; next_item = suc db.next_item }

abbrev pub missing_item : ℕ → String → Db → DisconnectBatchItem
missing_item pk serial db = record {
  id = db.next_item;
  batch_id = pk;
  meter_serial = serial;
  meter_id = none;
  status = item_failed;
  error_code = some "METER_NOT_FOUND";
  job_id = none;
}

abbrev pub queued_item : ℕ → String → ℕ → ℕ → Db → DisconnectBatchItem
queued_item pk serial meter_id job_id db = record {
  id = db.next_item;
  batch_id = pk;
  meter_serial = serial;
  meter_id = some meter_id;
  status = item_queued;
  error_code = none;
  job_id = some job_id;
}

abbrev pub batch_job : ℕ → JobType → String → ℕ → ℕ → Job
batch_job now job_type batch_id meter_id key = record {
  id = key;
  job_type = job_type;
  meter_id = meter_id;
  status = queued;
  payload = record no_payload { source = some "billing"; batch_id = some batch_id };
  result = none;
  error = none;
  created_by_id = none;
  created_at = now;
  started_at = none;
  finished_at = none;
  scheduled_job_run_id = none;
}

-- One serial number of the request.
abbrev pub add_serial : ℕ → JobType → ℕ → String → String → Option Meter → Db → Db
add_serial now job_type pk batch_id serial none db = add_item (missing_item pk serial db) db
add_serial now job_type pk batch_id serial (some meter) db =
    add_item (queued_item pk serial meter.id db.next_job db)
      (add_job (batch_job now job_type batch_id meter.id db.next_job) db)

unfoldable pub add_serials : ℕ → JobType → ℕ → String → List String → Db → Db
add_serials now job_type pk batch_id [] db = db
add_serials now job_type pk batch_id (s ∷ ss) db =
    add_serials now job_type pk batch_id ss
      (add_serial now job_type pk batch_id s (meter_by_serial db s) db)

abbrev pub new_batch : ℕ → String → DisconnectBatchOperation → String → ℕ → DisconnectBatch
new_batch pk batch_id operation key api_key_id = record {
  id = pk;
  batch_id = batch_id;
  operation = operation;
  idempotency_key = key;
  api_key_id = api_key_id;
  status = batch_queued;
  finished_at = none;
}

abbrev pub add_batch : DisconnectBatch → Db → Db
add_batch batch db = record db { batches = batch ∷ db.batches; next_batch = suc db.next_batch }

abbrev pub batch_audit : DisconnectBatchOperation → String → AuditLog
batch_audit operation batch_id = record {
  user_id = none;
  source = "billing";
  action = operation_audit_action operation;
  object_id = batch_object batch_id;
  success = true;
}

abbrev pub has_key : ℕ → String → DisconnectBatch → Bool
has_key api_key_id key batch = batch.api_key_id == api_key_id && str_eq batch.idempotency_key key

-- A batch with this key is answered again, if the request is the same.
abbrev pub repeated :
    DisconnectBatchOperation → List String → DisconnectBatch → Db → BatchAnswer × Db
repeated operation serials batch db =
    if same_operation batch.operation operation && same_texts (serials_of batch.id db) serials
    then (accepted_batch batch.batch_id, db)
    else (refused duplicate_idempotency_key, db)

unfoldable pub new_items :
    ℕ → String → DisconnectBatchOperation → String → ℕ → List String → Db → Db
unfolding add_serials
new_items now batch_id operation key api_key_id serials db =
    add_serials now (operation_type operation) db.next_batch batch_id serials
      (add_batch (new_batch db.next_batch batch_id operation key api_key_id) db)

unfoldable pub accept_new :
    ℕ → String → DisconnectBatchOperation → String → ℕ → List String → Db → Db
unfolding new_items
accept_new now batch_id operation key api_key_id serials db =
    record_audit (batch_audit operation batch_id) (
      finalize_batch_if_complete now db.next_batch
        (new_items now batch_id operation key api_key_id serials db))

abbrev pub answer_for :
    ℕ
    → String
    → DisconnectBatchOperation
    → String
    → ℕ
    → List String
    → Option DisconnectBatch
    → Db
    → BatchAnswer × Db
answer_for now fresh operation key api_key_id serials (some batch) db =
    repeated operation serials batch db
answer_for now fresh operation key api_key_id serials none db =
    (accepted_batch fresh, accept_new now fresh operation key api_key_id serials db)

-- An empty key counts as none.
abbrev pub key_given : Option String → Option String
key_given none = none
key_given (some key) = if str_eq key "" then none else some key

abbrev pub with_key :
    ℕ → String → DisconnectBatchOperation → ℕ → List String → Option String → Db → BatchAnswer × Db
with_key now fresh operation api_key_id serials none db = (refused idempotency_key_required, db)
with_key now fresh operation api_key_id serials (some key) db =
    if ltb max_batch_size (length serials)
    then (refused batch_too_large, db)
    else answer_for now fresh operation key api_key_id serials
        (find_row (has_key api_key_id key) db.batches) db

unfoldable pub create_batch :
    ℕ → String → DisconnectBatchOperation → Option String → ℕ → List String → Db → BatchAnswer × Db
create_batch now fresh operation key api_key_id serials db =
    with_key now fresh operation api_key_id serials (key_given key) db
