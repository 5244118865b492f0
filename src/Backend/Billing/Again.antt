-- ===== src/Backend/Billing/Again.antt =====
-- A batch that is sent again under its key.
use rise_sun.Common.{ℕ, List, [], ◌∷◌, Bool, true, false, Option, none, some, ltb, ◌==◌, ◌≡◌, refl}
use rise_sun.Common.{if◌then◌else◌, length, All, Bool-cases, inl, inr, ap, ◌∙◌, eq→==}
use Prim.Native.String.{String}
use text.Mathlib.Text.{◌==◌ as str_eq}
use text.Mathlib.TextPositions.{eq_refl}
use rise_sun.Backend.Jobs.{JobType}
use rise_sun.Backend.Db.{
  Db, Meter, DisconnectBatch, DisconnectBatchOperation, batch_disconnect, batch_reconnect,
  DisconnectBatchItem, get_batch,
}
use rise_sun.Backend.Tables.{find_row, where_rows, map_rows, update_rows, any}
use rise_sun.Backend.Finalizers.{
  items_of, item_is_queued, finalize_batch_if_complete, finalized_batch,
}
use rise_sun.Backend.Report.{meter_by_serial}
use rise_sun.Backend.Billing.{
  accepted_batch, refused, duplicate_idempotency_key, max_batch_size, same_operation,
  operation_type, same_texts, serials_of, add_serial, add_serials, new_batch, add_batch, has_key,
  repeated, new_items, accept_new, answer_for, create_batch,
}
use rise_sun.Backend.Billing.Texts.{onto, both, onto_same}

-- What the serial numbers add to the items of their batch, and that other batches stay.
record Added (pk : ℕ) (ss : List String) (db next : Db) : Type 0 where
  serials : serials_of pk next ≡ onto ss (serials_of pk db)
  batches : next.batches ≡ db.batches

one_serial :
    (now : ℕ) (job_type : JobType) (pk : ℕ) (batch_id s : String) (meter : Option Meter) (db : Db)
    → Added pk (s ∷ []) db (add_serial now job_type pk batch_id s meter db)
unfolding where_rows map_rows onto
one_serial now job_type pk batch_id s none db = record {
  serials = rw (eq→== pk pk refl);
  batches = refl;
}
one_serial now job_type pk batch_id s (some meter) db = record {
  serials = rw (eq→== pk pk refl);
  batches = refl;
}

then-Added :
    {pk : ℕ} {s : String} {ss : List String} (db mid next : Db)
    → Added pk (s ∷ []) db mid
    → Added pk ss mid next
    → Added pk (s ∷ ss) db next
unfolding onto
then-Added {pk} {s} {ss} db mid next one rest = record {
  serials = rest.serials ∙ ap (onto ss) one.serials;
  batches = rest.batches ∙ one.batches;
}

all_serials :
    (now : ℕ) (job_type : JobType) (pk : ℕ) (batch_id : String) (ss : List String) (db : Db)
    → Added pk ss db (add_serials now job_type pk batch_id ss db)
unfolding add_serials onto
all_serials now job_type pk batch_id [] db = record { serials = refl; batches = refl }
all_serials now job_type pk batch_id (s ∷ ss) db =
    then-Added db _ _ (one_serial now job_type pk batch_id s (meter_by_serial db s) db)
      (all_serials now job_type pk batch_id ss _)

no_items :
    (pk : ℕ) (items : List DisconnectBatchItem)
    → All (λ i. (i.batch_id == pk) ≡ false) items
    → where_rows (λ i. i.batch_id == pk) items ≡ []
unfolding where_rows
no_items pk [] h = refl
no_items pk (i ∷ is) h = rw (h.0, no_items pk is h.1)

module _ {A : Type 0} (p : A → Bool) where
  find_first : (x : A) (xs : List A) → p x ≡ true → find_row p (x ∷ xs) ≡ some x
  unfolding find_row
  find_first x xs e = rw e

  update_first :
      (f : A → A) (x : A) (xs : List A)
      → p x ≡ true
      → update_rows p f (x ∷ xs) ≡ f x ∷ update_rows p f xs
  unfolding update_rows
  update_first f x xs e = rw e

-- Closing the batch leaves its items, and the batch in front with its key.
record InFront (batch : DisconnectBatch) (mid next : Db) : Type 0 where
  same_items : next.items ≡ mid.items
  row : DisconnectBatch
  rest : List DisconnectBatch
  rows : next.batches ≡ row ∷ rest
  kept :
      (row.id ≡ batch.id)
      × (row.batch_id ≡ batch.batch_id)
      × (row.operation ≡ batch.operation)
      × (row.idempotency_key ≡ batch.idempotency_key)
      × (row.api_key_id ≡ batch.api_key_id)

module _ (now fresh_pk : ℕ) (batch_id : String) (operation : DisconnectBatchOperation)
    (key : String) (api_key_id : ℕ) where
  abbrev batch : DisconnectBatch
  batch = new_batch fresh_pk batch_id operation key api_key_id

  found :
      (mid : Db) (others : List DisconnectBatch)
      → mid.batches ≡ batch ∷ others
      → get_batch mid fresh_pk ≡ some batch
  found mid others e = ap (find_row (λ b. b.id == fresh_pk)) e ∙ first
    where
      first : find_row (λ b. b.id == fresh_pk) (batch ∷ others) ≡ some batch
      first = find_first (λ b. b.id == fresh_pk) batch others (eq→== fresh_pk fresh_pk refl)

  abbrev closed : Db → DisconnectBatch
  closed mid = finalized_batch now (items_of fresh_pk mid) batch

  closed_front :
      (mid : Db) (others : List DisconnectBatch)
      → mid.batches ≡ batch ∷ others
      → InFront batch mid (finalize_batch_if_complete now fresh_pk mid)
  unfolding finalize_batch_if_complete
  closed_front mid others e = elim (Bool-cases (any item_is_queued (items_of fresh_pk mid))) [
    | inl q ↦ record {
      same_items = rw q;
      row = batch;
      rest = others;
      rows = rw q e;
      kept = (refl, refl, refl, refl, refl);
    }
    | inr q ↦ record {
      same_items = rw (q, found mid others e);
      row = closed mid;
      rest = update_rows (λ b. b.id == fresh_pk) (λ b. closed mid) others;
      rows =
          rw (q, found mid others e)
            (ap (update_rows (λ b. b.id == fresh_pk) (λ b. closed mid)) e
              ∙ update_first (λ b. b.id == fresh_pk) (λ b. closed mid) batch others
                  (eq→== fresh_pk fresh_pk refl));
      kept = (refl, refl, refl, refl, refl);
    }
  ]

-- The row that the key finds afterwards.
key_finds :
    (api_key_id : ℕ) (key : String) (row : DisconnectBatch) (rest : List DisconnectBatch)
    → row.api_key_id ≡ api_key_id
    → row.idempotency_key ≡ key
    → find_row (has_key api_key_id key) (row ∷ rest) ≡ some row
key_finds api_key_id key row rest a k =
    find_first (has_key api_key_id key) row rest
      (both _ _ (eq→== _ _ a) (ap (λ t. str_eq t key) k ∙ eq_refl key))

same_operation_refl : (op : DisconnectBatchOperation) → same_operation op op ≡ true
same_operation_refl batch_disconnect = refl
same_operation_refl batch_reconnect = refl

repeated_same :
    (operation : DisconnectBatchOperation) (serials : List String) (row : DisconnectBatch) (d : Db)
    → same_operation row.operation operation ≡ true
    → same_texts (serials_of row.id d) serials ≡ true
    → repeated operation serials row d ≡ (accepted_batch row.batch_id, d)
repeated_same operation serials row d a b =
    ap (λ c. if c then (accepted_batch row.batch_id, d) else (refused duplicate_idempotency_key, d))
      (both _ _ a b)

module _ (now later : ℕ) (fresh other : String) (operation : DisconnectBatchOperation)
    (api_key_id : ℕ) (serials : List String) (db : Db) where
  -- No item uses the key that the next batch gets.
  abbrev pub IsFreshKey : Type 0
  IsFreshKey = All (λ i. (i.batch_id == db.next_batch) ≡ false) db.items

  abbrev pub accepted : String → Db
  accepted key = accept_new now fresh operation key api_key_id serials db

  items_before : (key : String) → Db
  items_before key = new_items now fresh operation key api_key_id serials db

  abbrev its_batch : String → DisconnectBatch
  its_batch key = new_batch db.next_batch fresh operation key api_key_id

  added :
      (key : String) → Added db.next_batch serials (add_batch (its_batch key) db) (items_before key)
  unfolding new_items items_before
  added key = all_serials now (operation_type operation) db.next_batch fresh serials _

  front : (key : String) → InFront (its_batch key) (items_before key) (accepted key)
  unfolding accept_new items_before
  front key = record {
    same_items = closing.same_items;
    row = closing.row;
    rest = closing.rest;
    rows = closing.rows;
    kept = closing.kept;
  }
    where
      closing :
          InFront
            (its_batch key)
            (items_before key)
            (finalize_batch_if_complete now db.next_batch (items_before key))
      closing =
          closed_front now db.next_batch fresh operation key api_key_id (items_before key)
            db.batches (added key).batches

  stored_serials :
      (key : String) → IsFreshKey → serials_of (front key).row.id (accepted key) ≡ onto serials []
  unfolding map_rows
  stored_serials key free =
      ap (λ k. serials_of k (accepted key)) (front key).kept.0
      ∙ ap
          (λ items.
            map_rows (λ i. i.meter_serial) (where_rows (λ i. i.batch_id == db.next_batch) items))
          (front key).same_items
      ∙ (added key).serials
      ∙ ap (λ items. onto serials (map_rows (λ i. i.meter_serial) items))
          (no_items db.next_batch db.items free)

  accepted_again :
      (key : String)
      → IsFreshKey
      → answer_for later other operation key api_key_id serials
          (find_row (has_key api_key_id key) (accepted key).batches)
          (accepted key)
        ≡ (accepted_batch fresh, accepted key)
  accepted_again key free =
      ap (λ o. answer_for later other operation key api_key_id serials o (accepted key)) its_row
      ∙ repeated_same operation serials (front key).row (accepted key)
          (ap (λ o. same_operation o operation) (front key).kept.2 ∙ same_operation_refl operation)
          (ap (λ ss. same_texts ss serials) (stored_serials key free) ∙ onto_same serials)
      ∙ ap (λ t. (accepted_batch t, accepted key)) (front key).kept.1
    where
      its_row : find_row (has_key api_key_id key) (accepted key).batches ≡ some (front key).row
      its_row =
          ap (find_row (has_key api_key_id key)) (front key).rows
          ∙ key_finds api_key_id key (front key).row (front key).rest (front key).kept.4
              (front key).kept.3

  -- A request for a batch, with a non-empty key that this client has not used, at most 500 serial
  -- numbers, and a new primary key that no item refers to, is accepted. The same request sent again at any
  -- time is answered with the same batch, whatever text a new batch would have got, and changes
  -- nothing: no second batch, item or job is created.
  pub create_batch_again :
      (key : String)
      → IsFreshKey
      → find_row (has_key api_key_id key) db.batches ≡ none
      → (str_eq key "" ≡ false)
      → ltb max_batch_size (length serials) ≡ false
      → (create_batch now fresh operation (some key) api_key_id serials db
          ≡ (accepted_batch fresh, accepted key))
        × (create_batch later other operation (some key) api_key_id serials (accepted key)
            ≡ (accepted_batch fresh, accepted key))
  unfolding create_batch
  create_batch_again key free unused given small =
      (rw (given, small, unused), rw (given, small) (accepted_again key free))
