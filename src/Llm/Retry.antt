-- ===== src/Llm/Retry.antt =====
-- Retry with exponential backoff: `RetryPolicy` and `call_with_retry` of src/aidss/llm/resilience.py.
-- Delays are in a unit in which those of the policy are whole; the jitter is in thousandths, and so
-- is the jittered delay. The operation is an argument: what its n-th call does.
pub mod Attempts
use stock_recommendation_be.Base.{
  ℕ, zero, suc, ◌+◌, ◌-◌, ◌*◌, ◌^◌, min, String, Bool, true, false, Option, none, some, List, [],
  ◌∷◌, ◌++◌, ◌==◌, if◌then◌else◌,
}

-- `ProviderUnavailableError`.
pub record ProviderError : Type 0 where
  pub provider : String
  pub message : String
  pub retryable : Bool

-- One call of the operation: it returns, raises ProviderUnavailableError, or raises anything else.
pub data Attempt (A : Type 0) : Type 0 where
  answered : A → Attempt A
  unavailable : ProviderError → Attempt A
  crashed : String → Attempt A

pub record RetryPolicy : Type 0 where
  pub max_attempts : ℕ
  pub base_delay : ℕ
  pub max_delay : ℕ
  pub jitter : ℕ

-- `sample` is the draw of `uniform(-jitter, jitter)`, counted from -jitter.
unfoldable pub delay_for : RetryPolicy → ℕ → ℕ → ℕ
delay_for p attempt sample =
    let raw = min (p.base_delay * 2 ^ (attempt - 1)) p.max_delay in
    if p.jitter == 0 then raw * 1000 else raw * (1000 + sample - p.jitter)

-- How the call ends; the assertion fails only where no attempt is allowed.
pub data CallEnd (A : Type 0) : Type 0 where
  value : A → CallEnd A
  raised : ProviderError → CallEnd A
  propagated : String → CallEnd A
  assertion_failed : CallEnd A

-- The end, with how often the operation was called and how long was slept between the calls.
pub record Call (A : Type 0) : Type 0 where
  pub result : CallEnd A
  pub calls : ℕ
  pub sleeps : List ℕ

pub reraise : {A : Type 0} → Option ProviderError → CallEnd A
reraise none = assertion_failed
reraise (some e) = raised e

-- The body of the loop: what one attempt ends with, `none` if the loop goes on.
unfoldable pub ends_with : {A : Type 0} → Attempt A → Option (CallEnd A)
ends_with (answered a) = some (value a)
ends_with (unavailable e) = if e.retryable then none else some (raised e)
ends_with (crashed s) = some (propagated s)

abbrev pub last_error : {A : Type 0} → Attempt A → Option ProviderError
last_error (unavailable e) = some e
last_error _ = none

module _ {A : Type 0} (policy : RetryPolicy) (operation : ℕ → Attempt A) (samples : ℕ → ℕ) where
  -- `left` attempts are left, the next of which is number `attempt`.
  pub retry_from : (left attempt : ℕ) → Option ProviderError → List ℕ → Call A
  unfolding ends_with delay_for reraise
  retry_from zero attempt last slept = record {
    result = reraise last;
    calls = attempt - 1;
    sleeps = slept;
  }
  retry_from (suc left) attempt last slept =
      let rest = retry_from left (attempt + 1) (last_error (operation attempt)) (
        if attempt == policy.max_attempts
        then slept
        else slept ++ delay_for policy attempt (samples attempt) ∷ []) in
      elim (ends_with (operation attempt)) [
        | some end ↦ record { result = end; calls = attempt; sleeps = slept }
        | none ↦ rest
      ]

  unfoldable pub call_with_retry : Call A
  unfolding retry_from
  call_with_retry = retry_from policy.max_attempts 1 none []
