-- ===== src/Jobs/Queue/Backoff.antt =====
-- What a failure costs a job: the delay before its retry, and when it is dead-lettered
-- (`retry_delay` and `fail` of src/aidss/jobs/queue.py).
use native.Mathlib.Nat.{pow-suc}
use stock_recommendation_be.Base.{some}
use stock_recommendation_be.Base.{
  ℕ, zero, suc, ◌+◌, ◌-◌, ◌*◌, ◌^◌, ◌≤◌, ◌<◌, min, ◌≡◌, refl, ◌↔◌, ◌⊎◌, String, Bool, true, false,
  none, arith,
}
use stock_recommendation_be.Jobs.Queue.{
  JobQueueEntry, pending, dead, retry_base_seconds, retry_max_seconds, retry_delay, fail, lock_for,
}

pow_pos : (n : ℕ) → 0 < 2 ^ n
pow_pos zero = omega arith
pow_pos (suc n) = omega (arith, pow-suc 2 n, pow_pos n)

one_less : (n : ℕ) → suc n - 1 ≡ n
one_less n = omega arith

pow_step : (n : ℕ) → 2 ^ (suc (suc n) - 1) ≡ 2 * 2 ^ (suc n - 1)
pow_step n = rw (one_less (suc n), one_less n, pow-suc) (omega arith)

-- The delay before a retry starts at the base, doubles with each attempt, and never passes the
-- ceiling of an hour.
pub retry_delay_doubles :
    (n : ℕ)
    → (retry_delay 1 ≡ retry_base_seconds)
      × (retry_delay (suc (suc n)) ≡ min (2 * retry_delay (suc n)) retry_max_seconds)
      × (retry_base_seconds ≤ retry_delay (suc n))
      × (retry_delay (suc n) ≤ retry_max_seconds)
unfolding retry_delay
retry_delay_doubles n =
    (refl, omega (arith, pow_step n), omega (arith, pow_pos (suc n - 1)), omega arith)

pub retry_delay_capped : (n : ℕ) → retry_delay n ≤ 3600
unfolding retry_delay
retry_delay_capped n = omega arith

-- A failure clears the lock and counts one more try. The job is dead exactly when the failure is
-- not retryable or the tries have used up `max_retries`; a job that is not dead is pending again,
-- due after the backoff, within an hour.
pub fail_outcome :
    (now : ℕ) (error : String) (retryable : Bool) (e : JobQueueEntry)
    → let f = fail now error retryable e in
      (f.retry_count ≡ e.retry_count + 1)
      × (f.locked_at ≡ none)
      × (f.locked_by ≡ none)
      × ((f.status ≡ dead) ↔ ((retryable ≡ false) ⊎ (e.max_retries ≤ e.retry_count)))
      × ((f.status ≡ dead)
          ⊎ ((f.status ≡ pending)
              × (f.available_at ≡ now + retry_delay (e.retry_count + 1))
              × (f.available_at ≤ now + 3600)))
unfolding fail
fail_outcome now error retryable e = ground (arith, retry_delay_capped (e.retry_count + 1))

-- `n` rounds in which a worker claims the job and its handler fails in a retryable way.
pub failing_rounds : ℕ → ℕ → String → String → JobQueueEntry → JobQueueEntry
failing_rounds zero now worker error e = e
failing_rounds (suc n) now worker error e =
    fail now error true (lock_for now worker (failing_rounds n now worker error e))

failing_rounds_live :
    (n now : ℕ) (worker error : String) (e : JobQueueEntry)
    → e.status ≡ pending
    → e.retry_count ≡ 0
    → n ≤ e.max_retries
    → let f = failing_rounds n now worker error e in
      (f.status ≡ pending) × (f.retry_count ≡ n) × (f.max_retries ≡ e.max_retries)
unfolding failing_rounds lock_for fail
failing_rounds_live zero now worker error e p z le = (p, z, refl)
failing_rounds_live (suc n) now worker error e p z le =
    ground (arith, failing_rounds_live n now worker error e p z)

-- A new job whose handler keeps failing in a retryable way is pending again after each of the first
-- `max_retries` failures, with each of them counted, and dead after the next one.
pub retries_run_out :
    (now : ℕ) (worker error : String) (e : JobQueueEntry)
    → e.status ≡ pending
    → e.retry_count ≡ 0
    → ((n : ℕ)
        → n ≤ e.max_retries
        → ((failing_rounds n now worker error e).status ≡ pending)
          × ((failing_rounds n now worker error e).retry_count ≡ n))
      × ((failing_rounds (suc e.max_retries) now worker error e).status ≡ dead)
      × ((failing_rounds (suc e.max_retries) now worker error e).finished_at ≡ some now)
unfolding failing_rounds lock_for fail
retries_run_out now worker error e p z = (
  (λ n le. let h = failing_rounds_live n now worker error e p z le in (h.0, h.1)),
  ground (arith, failing_rounds_live e.max_retries now worker error e p z),
  ground (arith, failing_rounds_live e.max_retries now worker error e p z),
)
