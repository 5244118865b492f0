-- ===== src/Session/Retries.antt =====
-- How often an operation is tried, and what comes out.
use rise_sun.Common.{ℕ, zero, suc, ◌*◌, ◌<◌, ◌≡◌, refl, ap, List, [], ◌∷◌, arith, true, false}
use rise_sun.Errors.{Error, Result, ok, err}
use rise_sun.Session.{Run, retryable, finished, slept, after_attempt, retry_loop, run_with_retries}

-- The delays before the next `k` attempts: each is twice the one before it.
abbrev pub doubling : ℕ → ℕ → List ℕ
doubling zero delay = []
doubling (suc k) delay = delay ∷ doubling k (delay * 2)

module _ {ℓ κ} {S : Type ℓ} {A : Type κ} (operation : S → Result A × S) where
  -- From the first state, `k` runs of the operation fail in a way that may be retried, and lead to
  -- the last state.
  pub data Fails : ℕ → S → S → Type (ℓ ⊔ κ) where
    none_yet : (s : S) → Fails zero s s
    once_more :
        {k : ℕ} {s t u : S} (e : Error)
        → operation s ≡ (err e, t)
        → retryable e ≡ true
        → Fails k t u
        → Fails (suc k) s u

  -- What ends the loop: success, or an error that is not retried.
  abbrev pub IsFinal : Result A → Type 0
  IsFinal (ok a) = Unit {0}
  IsFinal (err e) = retryable e ≡ false

  after_final :
      (left delay : ℕ) (rest : S → Run S A) (r : Result A) (s : S)
      → IsFinal r
      → after_attempt left delay rest (r, s) ≡ finished r s
  after_final left delay rest (ok a) s h = refl
  after_final zero delay rest (err e) s h = refl
  after_final (suc left) delay rest (err e) s h = rw h

  loop_final :
      (k n delay : ℕ) {s t u : S} (r : Result A)
      → Fails k s t
      → operation t ≡ (r, u)
      → IsFinal r
      → k < n
      → retry_loop n delay operation s ≡ record { result = r; state = u; sleeps = doubling k delay }
  unfolding retry_loop
  loop_final zero zero delay r f e h p = absurd (omega arith)
  loop_final (suc k) zero delay r f e h p = absurd (omega arith)
  loop_final (suc k) (suc zero) delay r f e h p = absurd (omega arith)
  loop_final zero (suc n) delay {u = u} r (none_yet s) e h p = rw e (after_final n delay _ r u h)
  loop_final (suc k) (suc (suc n)) delay r (once_more x step again f) e h p =
      rw (step, again) (ap (slept delay) (loop_final k (suc n) (delay * 2) r f e h (omega arith)))

  loop_exhausted :
      (k delay : ℕ) {s t u : S} (x : Error)
      → Fails k s t
      → operation t ≡ (err x, u)
      → retry_loop (suc k) delay operation s
        ≡ record { result = err x; state = u; sleeps = doubling k delay }
  unfolding retry_loop
  loop_exhausted zero delay x (none_yet s) e = rw e
  loop_exhausted (suc k) delay x (once_more y step again f) e =
      rw (step, again) (ap (slept delay) (loop_exhausted k (delay * 2) x f e))

  -- If after `k` failures that may be retried, fewer than `max_retries`, the operation succeeds or
  -- raises an error that is not retried, such as `AuthFailedError`, the run ends with that
  -- outcome: no further attempt is made, and the delays were 500 ms, doubled each time.
  pub run_with_retries_final :
      (k max_retries : ℕ) {s t u : S} (r : Result A)
      → Fails k s t
      → operation t ≡ (r, u)
      → IsFinal r
      → k < max_retries
      → run_with_retries max_retries operation s
        ≡ record { result = r; state = u; sleeps = doubling k 500 }
  unfolding run_with_retries
  run_with_retries_final k max_retries r f e h p = loop_final k max_retries 500 r f e h p

  -- If the first `k` attempts fail in a way that may be retried and the attempt after them raises
  -- any error, then with `k + 1` attempts allowed the run raises that error, after `k` delays.
  pub run_with_retries_exhausted :
      (k : ℕ) {s t u : S} (x : Error)
      → Fails k s t
      → operation t ≡ (err x, u)
      → run_with_retries (suc k) operation s
        ≡ record { result = err x; state = u; sleeps = doubling k 500 }
  unfolding run_with_retries
  run_with_retries_exhausted k x f e = loop_exhausted k 500 x f e
