-- ===== src/Llm/CircuitBreaker/Soundness.antt =====
-- What holds of a breaker whatever calls are checked and however they end: `CircuitBreaker` of
-- src/aidss/llm/resilience.py.
use stock_recommendation_be.Base.{
  ℕ, suc, ◌≤◌, ◌<◌, ◌≡◌, refl, inl, inr, true, false, none, List, [], ◌∷◌, leb, leb→le, leb-false,
  arith, if◌then◌else◌, is_some, Bool-cases,
}
use stock_recommendation_be.Llm.CircuitBreaker.{
  CircuitState, closed, open_circuit, half_open, CircuitBreaker, elapsed_since_open, is_open,
  is_half_open, current_state, ensure_closed, record_success, record_failure,
}

-- A closed circuit has not seen the threshold of failures; another one has, and knows since when.
abbrev pub IsSoundAt : CircuitState → CircuitBreaker → Type 0
IsSoundAt closed b = (b.opened_at ≡ none) × (b.failures < b.failure_threshold)
IsSoundAt open_circuit b = (is_some b.opened_at ≡ true) × (b.failure_threshold ≤ b.failures)
IsSoundAt half_open b = (is_some b.opened_at ≡ true) × (b.failure_threshold ≤ b.failures)

unfoldable pub IsSound : CircuitBreaker → Type 0
IsSound b = (0 < b.failure_threshold) × IsSoundAt b.circuit b

-- What calls and their outcomes do to a breaker, in any order.
pub data Event : Type 0 where
  checked : ℕ → Event
  succeeded : Event
  failed : ℕ → Event

unfoldable pub apply_event : Event → CircuitBreaker → CircuitBreaker
unfolding ensure_closed
apply_event (checked now) b = (ensure_closed now b).0
apply_event succeeded b = record_success b
apply_event (failed now) b = record_failure now b

pub apply_events : List Event → CircuitBreaker → CircuitBreaker
apply_events [] b = b
apply_events (e ∷ es) b = apply_events es (apply_event e b)

set_circuit : CircuitState → CircuitBreaker → CircuitBreaker
set_circuit c b = record b { circuit = c }

module _ (now : ℕ) (b : CircuitBreaker) where
  state_SoundAt :
      (c : CircuitState)
      → IsSoundAt c b
      → IsSoundAt
          (current_state now (record b { circuit = c })).circuit
          (current_state now (record b { circuit = c }))
  unfolding current_state is_open
  state_SoundAt closed s = s
  state_SoundAt half_open s = s
  state_SoundAt open_circuit s =
      elim (leb b.reset_timeout (elapsed_since_open now (record b { circuit = open_circuit })))
        as (λ t.
          let r =
            if t then record b { circuit = half_open } else record b { circuit = open_circuit } in
          IsSoundAt r.circuit r) [ true ↦ s | false ↦ s ]

  state_threshold : (current_state now b).failure_threshold ≡ b.failure_threshold
  unfolding current_state
  state_threshold = ground arith

  failure_SoundAt :
      (c : CircuitState)
      → IsSoundAt c b
      → IsSoundAt
          (record_failure now (record b { circuit = c })).circuit
          (record_failure now (record b { circuit = c }))
  unfolding record_failure is_half_open
  failure_SoundAt closed s = elim (Bool-cases (leb b.failure_threshold (suc b.failures))) [
    | inl tripped ↦ rw tripped (refl, leb→le _ _ tripped)
    | inr counted ↦ rw counted (s.0, leb-false _ _ counted)
  ]
  failure_SoundAt half_open s = (refl, s.1)
  failure_SoundAt open_circuit s = elim (Bool-cases (leb b.failure_threshold (suc b.failures))) [
    | inl tripped ↦ rw tripped (refl, leb→le _ _ tripped)
    | inr counted ↦ absurd (omega (arith, s.1, leb-false _ _ counted))
  ]

  failure_threshold : (record_failure now b).failure_threshold ≡ b.failure_threshold
  unfolding record_failure
  failure_threshold = ground arith

apply_event-IsSound : (e : Event) (b : CircuitBreaker) → IsSound b → IsSound (apply_event e b)
unfolding apply_event IsSound ensure_closed record_success
apply_event-IsSound (checked now) b s =
    (omega (arith, s.0, state_threshold now b), state_SoundAt now b b.circuit s.1)
apply_event-IsSound succeeded b s = (s.0, (refl, s.0))
apply_event-IsSound (failed now) b s =
    (omega (arith, s.0, failure_threshold now b), failure_SoundAt now b b.circuit s.1)

-- Whatever calls are checked and whatever their outcomes, in any order: a closed circuit has counted
-- fewer failures than the threshold, and one that is not closed has counted as many and has an
-- instant at which it opened, where the threshold is positive.
pub apply_events-IsSound :
    (es : List Event) (b : CircuitBreaker) → IsSound b → IsSound (apply_events es b)
unfolding apply_events
apply_events-IsSound [] b s = s
apply_events-IsSound (e ∷ es) b s =
    apply_events-IsSound es (apply_event e b) (apply_event-IsSound e b s)
