-- ===== src/Llm/Tests/Calls.antt =====
-- Retry, rate limiter, circuit breaker and cost of src/aidss/llm at small inputs.
use stock_recommendation_be.Base.{
  List, ℕ, ◌≤◌, ◌≡◌, refl, true, some, [], ◌∷◌, arith, leb, if◌then◌else◌,
}
use stock_recommendation_be.Llm.Retry.{ProviderError, Attempt, answered, unavailable, RetryPolicy}
use stock_recommendation_be.Llm.RateLimiter.{RateLimiter, Grant, acquire_slot}
use stock_recommendation_be.Llm.RateLimiter.Window.{recent}
use stock_recommendation_be.Llm.RateLimiter.History.{Served, fresh, grant, grants_limited}
use stock_recommendation_be.Llm.CircuitBreaker.{
  open_circuit, CircuitBreaker, fresh_breaker, ensure_closed,
}
use stock_recommendation_be.Llm.CircuitBreaker.Trips.{
  FailingCall, failing_calls, failures_of, skipped_after_failures,
}

abbrev policy : RetryPolicy
policy = record { max_attempts = 3; base_delay = 2; max_delay = 30; jitter = 250 }

abbrev timeout_error : ProviderError
timeout_error = record { provider = "primary"; message = "timeout"; retryable = true }

abbrev answers_second : ℕ → Attempt ℕ
answers_second n = if leb 2 n then answered 7 else unavailable timeout_error

abbrev never_answers : ℕ → Attempt ℕ
never_answers _ = unavailable timeout_error

abbrev full_limiter : RateLimiter
full_limiter = record { requests_per_minute = 2; window_seconds = 60; hits = 10 ∷ 30 ∷ [] }

abbrev one_grant : Grant
one_grant = record {
  at = 5;
  waited = 0;
  limiter = record { requests_per_minute = 1; window_seconds = 60; hits = 5 ∷ [] };
}

one-Served :
    Served 1 60 5 (record { requests_per_minute = 1; window_seconds = 60; hits = 5 ∷ [] }) (5 ∷ [])
unfolding acquire_slot
one-Served = grant {g = one_grant} (fresh 3) (omega arith) refl

grants_limited_example : recent 60 64 (5 ∷ []) ≤ 1
grants_limited_example = grants_limited 1 60 (omega arith) one-Served 64 (omega arith)

-- Three failures, a call that is skipped, and a trial after the timeout that fails.
abbrev failing : List FailingCall
failing =
    record { checked_at = 5; failed_at = 6 }
    ∷ record { checked_at = 7; failed_at = 8 }
    ∷ record { checked_at = 9; failed_at = 9 }
    ∷ record { checked_at = 20; failed_at = 21 }
    ∷ record { checked_at = 40; failed_at = 44 }
    ∷ []

skipped_after_failures_example :
    (ensure_closed 50 (failing_calls failing (fresh_breaker 3 30))).1 ≡ some 24
unfolding failing_calls failures_of
skipped_after_failures_example =
    skipped_after_failures 3 30 0 failing 50 (omega arith) (ground arith)

abbrev tripped : CircuitBreaker
tripped = record {
  failure_threshold = 3;
  reset_timeout = 30;
  failures = 3;
  opened_at = some 9;
  circuit = open_circuit;
}
