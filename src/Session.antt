-- ===== src/Session.antt =====
-- gateway/src/mmws_gateway/session.py: the retries of a whole operation. An operation is a
-- function on the state of everything that it touches; delays are in milliseconds.
pub mod Retries
use rise_sun.Common.{ℕ, zero, suc, ◌*◌, List, [], ◌∷◌, Bool, true, false, if◌then◌else◌}
use rise_sun.Errors.{
  Error, ErrorCode, GatewayError, Result, ok, err, raised, timeout, crc_error, connection_lost,
  assertion_error,
}

abbrev retryable_code : ErrorCode → Bool
retryable_code timeout = true
retryable_code crc_error = true
retryable_code connection_lost = true
retryable_code _ = false

-- `isinstance(exc, _RETRYABLE)`.
abbrev pub retryable : Error → Bool
retryable (raised e) = retryable_code e.code
retryable _ = false

-- What a run returns or raises, the state that it leaves, and the delays that it slept.
pub record Run {ℓ κ} (S : Type ℓ) (A : Type κ) : Type (ℓ ⊔ κ) where
  pub result : Result A
  pub state : S
  pub sleeps : List ℕ

module _ {ℓ κ} {S : Type ℓ} {A : Type κ} where
  abbrev pub finished : Result A → S → Run S A
  finished r s = record { result = r; state = s; sleeps = [] }

  -- `time.sleep(delay)`, and then the rest of the run.
  abbrev pub slept : ℕ → Run S A → Run S A
  slept delay r = record { result = r.result; state = r.state; sleeps = delay ∷ r.sleeps }

  -- One turn of the loop, after the operation, with the number of turns that are left.
  abbrev pub after_attempt : ℕ → ℕ → (S → Run S A) → Result A × S → Run S A
  after_attempt left delay rest (ok a, s) = finished (ok a) s
  after_attempt zero delay rest (err e, s) = finished (err e) s
  after_attempt (suc left) delay rest (err e, s) =
      if retryable e then slept delay (rest s) else finished (err e) s

  -- With no turn at all `last_exc` is still `None`.
  pub retry_loop : ℕ → ℕ → (S → Result A × S) → S → Run S A
  retry_loop zero delay operation s = finished (err assertion_error) s
  retry_loop (suc left) delay operation s =
      after_attempt left delay (retry_loop left (delay * 2) operation) (operation s)

  unfoldable pub run_with_retries : ℕ → (S → Result A × S) → S → Run S A
  unfolding retry_loop
  run_with_retries max_retries operation s = retry_loop max_retries 500 operation s
