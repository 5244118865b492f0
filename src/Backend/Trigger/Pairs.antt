-- ===== src/Backend/Trigger/Pairs.antt =====
-- The pairs of a meter and a payload keep what is known of the meters.
use rise_sun.Common.{ℕ, List, [], ◌∷◌, Bool, true, false, ◌≡◌, refl}
use rise_sun.Common.{◌&&◌, Bool-cases, inl, inr, All, arith}
use rise_sun.Common.{All-append}
use rise_sun.Backend.Jobs.{
  JobType, Payload, read_current, write_datetime, write_parameter, read_load_profile, disconnect,
  reconnect, read_rated_current, read_relay_state, other_type,
}
use rise_sun.Backend.Db.{Db, Meter, ScheduledJob}
use rise_sun.Backend.Tables.{where_rows, map_rows}
use rise_sun.Backend.Calls.{Env, or_default}
use rise_sun.Backend.Scheduler.{
  ids_of, without, with_payload, with_meter_of, all_pairs, unread_pairs, has_no_rating,
  first_payload, already_read_today_meter_ids,
}
use rise_sun.Backend.Trigger.{pairs_for}

module _ {A : Type 0} (P : A → Type 0) where
  kept : (p : A → Bool) (xs : List A) → All P xs → All P (where_rows p xs)
  unfolding where_rows
  kept p [] all = tt
  kept p (x ∷ xs) all = elim (Bool-cases (p x)) [
    | inl e ↦ rw e (all.0, kept p xs all.1)
    | inr e ↦ rw e (kept p xs all.1)
  ]

  pub selected :
      (p : A → Bool) (xs : List A) → ((x : A) → p x ≡ true → P x) → All P (where_rows p xs)
  unfolding where_rows
  selected p [] h = tt
  selected p (x ∷ xs) h = elim (Bool-cases (p x)) [
    | inl e ↦ rw e (h x e, selected p xs h)
    | inr e ↦ rw e (selected p xs h)
  ]

pub first_true : (a b : Bool) → (a && b) ≡ true → a ≡ true
first_true true b e = refl
first_true false b e = ground arith

-- A condition on the meters of pairs.
module _ (P : Meter → Type 0) where
  abbrev pub OfPair : Meter × Payload → Type 0
  OfPair pair = P pair.0

  payload_pairs :
      (payload : Payload) (meters : List Meter)
      → All P meters
      → All OfPair (with_payload payload meters)
  unfolding map_rows
  payload_pairs payload [] all = tt
  payload_pairs payload (m ∷ ms) all = (all.0, payload_pairs payload ms all.1)

  meter_pairs :
      (meter : Meter) (payloads : List Payload)
      → P meter
      → All OfPair (with_meter_of meter payloads)
  unfolding map_rows
  meter_pairs meter [] h = tt
  meter_pairs meter (p ∷ ps) h = (h, meter_pairs meter ps h)

  all_pairs-OfPair :
      (meters : List Meter) (payloads : List Payload)
      → All P meters
      → All OfPair (all_pairs meters payloads)
  unfolding all_pairs
  all_pairs-OfPair [] payloads all = tt
  all_pairs-OfPair (m ∷ ms) payloads all =
      All-append OfPair (with_meter_of m payloads) _ (meter_pairs m payloads all.0)
        (all_pairs-OfPair ms payloads all.1)

  unread_pairs-OfPair :
      (env : Env) (now : ℕ) (db : Db) (meters : List Meter) (payloads : List Payload)
      → All P meters
      → All OfPair (unread_pairs env now db meters payloads)
  unfolding unread_pairs
  unread_pairs-OfPair env now db meters [] all = tt
  unread_pairs-OfPair env now db meters (p ∷ ps) all =
      All-append OfPair
        (with_payload p (
          without (already_read_today_meter_ids env now db (ids_of meters) (or_default p.obis ""))
            meters))
        _ (payload_pairs p _ (kept P _ meters all)) (unread_pairs-OfPair env now db meters ps all)

  first_payload-OfPair :
      (meters : List Meter) (payloads : List Payload)
      → All P meters
      → All OfPair (first_payload meters payloads)
  first_payload-OfPair meters [] all = tt
  first_payload-OfPair meters (p ∷ ps) all = payload_pairs p _ (kept P has_no_rating meters all)

  module _ (env : Env) (now : ℕ) (db : Db) (s : ScheduledJob) where
    pub typed_pairs :
        (t : JobType) (meters : List Meter) (payloads : List Payload)
        → s.job_type ≡ t
        → All P meters
        → All OfPair (pairs_for env now db s meters payloads)
    unfolding pairs_for
    typed_pairs read_current meters payloads e all =
        elim (Bool-cases s.operation_params.skip_if_read_today) [
          | inl c ↦ rw (e, c) (unread_pairs-OfPair env now db meters payloads all)
          | inr c ↦ rw (e, c) (all_pairs-OfPair meters payloads all)
        ]
    typed_pairs read_load_profile meters payloads e all =
        elim (Bool-cases s.operation_params.skip_if_read_today) [
          | inl c ↦ rw (e, c) (all_pairs-OfPair _ payloads (kept P _ meters all))
          | inr c ↦ rw (e, c) (all_pairs-OfPair meters payloads all)
        ]
    typed_pairs read_rated_current meters payloads e all =
        rw e (first_payload-OfPair meters payloads all)
    typed_pairs write_datetime meters payloads e all = rw e (all_pairs-OfPair meters payloads all)
    typed_pairs write_parameter meters payloads e all = rw e (all_pairs-OfPair meters payloads all)
    typed_pairs disconnect meters payloads e all = rw e (all_pairs-OfPair meters payloads all)
    typed_pairs reconnect meters payloads e all = rw e (all_pairs-OfPair meters payloads all)
    typed_pairs read_relay_state meters payloads e all = rw e (all_pairs-OfPair meters payloads all)
    typed_pairs (other_type name) meters payloads e all =
        rw e (all_pairs-OfPair meters payloads all)
