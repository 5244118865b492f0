-- ===== src/Backend/Finalizers/Batches.antt =====
-- When a disconnect batch is closed, and with which outcome.
use rise_sun.Common.{ℕ, List, true, false, some, ◌≡◌, refl, ◌==◌}
use rise_sun.Common.{==→eq, length, arith, Bool-cases, inl, inr, ◌≢◌}
use rise_sun.Backend.Db.{
  Db, DisconnectBatch, DisconnectBatchStatus, completed, completed_with_errors, batch_failed,
  DisconnectBatchItem, get_batch,
}
use rise_sun.Backend.Tables.{any, count}
use rise_sun.Common.{eq→==, ap, ◌∙◌}
use rise_sun.Backend.Tables.{update_rows}
use rise_sun.Backend.Tables.Laws.{find_row-holds, find_row-update_rows}
use rise_sun.Backend.Finalizers.{
  item_is_queued, item_is_failed, items_of, batch_is_open, batch_outcome, finalized_batch,
  finalize_batch_if_complete,
}

-- The outcome of a batch, from the items that failed and all items.
pub data BatchOutcome (bad total : ℕ) : DisconnectBatchStatus → Type 0 where
  all_done : bad ≡ 0 → BatchOutcome bad total completed
  all_bad : bad ≢ 0 → bad ≡ total → BatchOutcome bad total batch_failed
  some_bad : bad ≢ 0 → bad ≢ total → BatchOutcome bad total completed_with_errors

batch_outcome-BatchOutcome : (total bad : ℕ) → BatchOutcome bad total (batch_outcome total bad)
batch_outcome-BatchOutcome total bad = elim (Bool-cases (bad == 0)) [
  | inl z ↦ rw z (all_done (==→eq _ _ z))
  | inr z ↦ elim (Bool-cases (bad == total)) [
    | inl t ↦ rw (z, t) (all_bad (λ h. ground arith) (==→eq _ _ t))
    | inr t ↦ rw (z, t) (some_bad (λ h. ground arith) (λ h. ground arith))
  ]
]

-- A batch is closed over its items, and nothing else changes; before that, nothing does.
pub data BatchAfter (now : ℕ) (items : List DisconnectBatchItem) (old : DisconnectBatch)
    (db next : Db) : Type 0 where
  stays_open : any item_is_queued items ≡ true → next ≡ db → BatchAfter now items old db next
  is_closed :
      (new : DisconnectBatch)
      → any item_is_queued items ≡ false
      → BatchOutcome (count item_is_failed items) (length items) new.status
      → new ≡ record old { status = new.status; finished_at = some now }
      → next ≡ record db { batches = update_rows (λ b. b.id == old.id) (λ b. new) db.batches }
      → get_batch next old.id ≡ some new
      → BatchAfter now items old db next

module _ (now pk : ℕ) (db : Db) (batch : DisconnectBatch) where
  its_key : get_batch db pk ≡ some batch → batch.id ≡ pk
  its_key e = ==→eq _ _ (find_row-holds (λ b. b.id == pk) db.batches batch e)

  -- For an open batch, `finalize_batch_if_complete` leaves the whole database as it is while an item
  -- of the batch waits. When none does, it writes the row of this batch and changes nothing else:
  -- the row, which is found afterwards, gets the time of the end and the status that tells whether
  -- none, some or all of the items failed, and keeps its other columns.
  pub finalize_batch_if_complete_lem :
      get_batch db pk ≡ some batch
      → batch_is_open batch ≡ true
      → BatchAfter now (items_of pk db) batch db (finalize_batch_if_complete now pk db)
  unfolding finalize_batch_if_complete
  finalize_batch_if_complete_lem e active =
      elim (Bool-cases (any item_is_queued (items_of pk db))) [
        | inl q ↦ rw q (stays_open q refl)
        | inr q ↦
            rw (q, e, active)
              (is_closed (finalized_batch now (items_of pk db) batch) q
                (batch_outcome-BatchOutcome _ _) refl refl
                (find_row-update_rows (λ b. b.id == batch.id)
                  (finalized_batch now (items_of pk db) batch) db.batches batch (eq→== _ _ refl)
                  (ap (get_batch db) (its_key e) ∙ e)))
      ]
