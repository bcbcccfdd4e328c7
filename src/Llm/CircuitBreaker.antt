-- ===== src/Llm/CircuitBreaker.antt =====
-- The circuit breaker: `CircuitBreaker` of src/aidss/llm/resilience.py. `now` is the reading of the
-- monotonic clock, in one unit with the timeout.
pub mod Soundness
pub mod Trips
use stock_recommendation_be.Base.{
  ℕ, suc, ◌-◌, Bool, true, false, Option, none, some, leb, ltb, if◌then◌else◌,
}

pub data CircuitState : Type 0 where
  closed : CircuitState
  open_circuit : CircuitState
  half_open : CircuitState

pub record CircuitBreaker : Type 0 where
  pub failure_threshold : ℕ
  pub reset_timeout : ℕ
  pub failures : ℕ
  pub opened_at : Option ℕ
  pub circuit : CircuitState

-- A breaker as it is created.
abbrev pub fresh_breaker : (failure_threshold reset_timeout : ℕ) → CircuitBreaker
fresh_breaker n t = record {
  failure_threshold = n;
  reset_timeout = t;
  failures = 0;
  opened_at = none;
  circuit = closed;
}

unfoldable pub elapsed_since_open : ℕ → CircuitBreaker → ℕ
elapsed_since_open now b = elim b.opened_at [ none ↦ 0 | some t ↦ now - t ]

unfoldable pub is_open : CircuitState → Bool
is_open open_circuit = true
is_open _ = false

unfoldable pub is_half_open : CircuitState → Bool
is_half_open half_open = true
is_half_open _ = false

-- The property `state`, which moves an open circuit on.
unfoldable pub current_state : ℕ → CircuitBreaker → CircuitBreaker
unfolding elapsed_since_open is_open
current_state now b =
    if is_open b.circuit
    then (if leb b.reset_timeout (elapsed_since_open now b)
        then record b { circuit = half_open }
        else b)
    else b

-- `ensure_closed`: the breaker, and for how much longer the provider is skipped if it is.
unfoldable pub ensure_closed : ℕ → CircuitBreaker → CircuitBreaker × Option ℕ
unfolding current_state
ensure_closed now b =
    let b' = current_state now b in
    (b', if is_open b'.circuit then some (b'.reset_timeout - elapsed_since_open now b') else none)

unfoldable pub record_success : CircuitBreaker → CircuitBreaker
record_success b = record b { failures = 0; opened_at = none; circuit = closed }

unfoldable pub record_failure : ℕ → CircuitBreaker → CircuitBreaker
unfolding is_half_open
record_failure now b =
    if is_half_open b.circuit
    then record b { opened_at = some now; circuit = open_circuit }
    else let counted = record b { failures = suc b.failures } in
      if leb b.failure_threshold (suc b.failures)
      then record counted { opened_at = some now; circuit = open_circuit }
      else counted
