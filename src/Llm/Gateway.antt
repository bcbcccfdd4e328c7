-- ===== src/Llm/Gateway.antt =====
-- The gateway: routing, circuit breaking, rate limiting, retry, fallback and cost accounting of one
-- request (src/aidss/llm/gateway.py). The instant, in milliseconds, is part of the state; how long
-- the calls of one provider take with the pauses between them, and the jitter, are arguments.
pub mod Loop
pub mod Contacts
pub mod Spending
pub mod Fallback
pub mod Returns
use stock_recommendation_be.Base.{
  ℕ, ◌+◌, String, Bool, true, false, ◌&&◌, Option, none, some, List, [], ◌∷◌, ◌++◌, get_or,
  if◌then◌else◌,
}
use stock_recommendation_be.Base.Dict.{Dict, get, put}
use stock_recommendation_be.Llm.Retry.{
  ProviderError, RetryPolicy, Attempt, CallEnd, value, raised, propagated, assertion_failed, Call,
  call_with_retry,
}
use stock_recommendation_be.Llm.RateLimiter.{
  RateLimiter, Grant, Acquired, granted, index_error, out_of_fuel, acquire_slot,
}
use stock_recommendation_be.Llm.CircuitBreaker.{
  CircuitBreaker, fresh_breaker, ensure_closed, record_success, record_failure,
}
use stock_recommendation_be.Llm.Cost.{Usage, estimate_cost, CostTracker, over_budget, record_usage}
use stock_recommendation_be.Llm.Router.{
  TaskComplexity, Sensitivity, ChatCompletion, ChatCall, ProviderBinding, Reason, Routed, providers,
  no_eligible, chain,
}

pub record LlmRequest : Type 0 where
  pub messages : List String
  pub complexity : TaskComplexity
  pub sensitivity : Sensitivity
  pub expects_json : Bool
  pub agent : Option String

pub record LlmResponse : Type 0 where
  pub content : String
  pub usage : Usage
  pub fallbacks_used : List String

-- Beside the fields of the source: the instant, the number of calls made to providers, and the
-- providers in the order in which they were contacted.
pub record LlmGateway : Type 0 where
  pub bindings : List ProviderBinding
  pub retry_policy : RetryPolicy
  pub cost_tracker : CostTracker
  pub circuit_failure_threshold : ℕ
  pub circuit_reset_timeout : ℕ
  pub breakers : Dict CircuitBreaker
  pub limiters : Dict RateLimiter
  pub now : ℕ
  pub calls_made : ℕ
  pub contacted : List ProviderBinding

unfoldable pub breaker : String → LlmGateway → CircuitBreaker
breaker name g =
    get_or (fresh_breaker g.circuit_failure_threshold g.circuit_reset_timeout) (get name g.breakers)

unfoldable pub set_breaker : String → CircuitBreaker → LlmGateway → LlmGateway
set_breaker name b g = record g { breakers = put name b g.breakers }

abbrev pub fresh_limiter : ProviderBinding → RateLimiter
fresh_limiter b = record {
  requests_per_minute = b.requests_per_minute;
  window_seconds = 60000;
  hits = [];
}

unfoldable pub limiter : ProviderBinding → LlmGateway → RateLimiter
limiter b g = get_or (fresh_limiter b) (get b.name g.limiters)

-- Whether JSON mode is asked for.
unfoldable pub response_format : ProviderBinding → LlmRequest → Bool
response_format b r = r.expects_json && b.provider.supports_structured_output

abbrev pub call_for : LlmRequest → ProviderBinding → ChatCall
call_for r b = record { messages = r.messages; model = b.model; json_mode = response_format b r }

unfoldable pub usage_of : ProviderBinding → ChatCompletion → Usage
usage_of b c = record {
  provider = b.name;
  model = c.model;
  prompt_tokens = c.prompt_tokens;
  completion_tokens = c.completion_tokens;
  cost_estimate =
      estimate_cost c.prompt_tokens c.completion_tokens b.input_cost_per_1k b.output_cost_per_1k;
}

-- What the body of the loop does with one provider.
pub data Tried : Type 0 where
  skipped : ℕ → Tried
  unreachable : ProviderError → Tried
  answer : ChatCompletion → Tried
  broken : String → Tried
  endless : Tried

module _ (samples : ℕ → ℕ) (took : ProviderBinding → ℕ → ℕ) (request : LlmRequest) where
  -- The call with its retries, on a gateway that has a slot.
  abbrev pub retried : ProviderBinding → LlmGateway → Call ChatCompletion
  retried b g =
      call_with_retry g.retry_policy
        (λ n. b.provider.chat_completion (call_for request b) (g.calls_made + n)) samples

  abbrev pub after_call : ProviderBinding → LlmGateway → LlmGateway
  after_call b g = record g {
    now = g.now + took b g.now;
    calls_made = g.calls_made + (retried b g).calls;
    contacted = g.contacted ++ b ∷ [];
  }

  -- What the end of the call does to the gateway.
  unfoldable pub settle_call :
      ProviderBinding → CallEnd ChatCompletion → LlmGateway → Tried × LlmGateway
  unfolding breaker set_breaker usage_of
  settle_call b (value c) g =
      let g' = set_breaker b.name (record_success (breaker b.name g)) g in
      (
        answer c,
        record g' { cost_tracker = record_usage (usage_of b c) request.agent g'.cost_tracker },
      )
  settle_call b (raised e) g =
      (unreachable e, set_breaker b.name (record_failure g.now (breaker b.name g)) g)
  settle_call b (propagated s) g = (broken s, g)
  settle_call b assertion_failed g = (broken "AssertionError", g)

  unfoldable pub contact : ProviderBinding → LlmGateway → Tried × LlmGateway
  unfolding settle_call
  contact b g = settle_call b (retried b g).result (after_call b g)

  -- Past the breaker: `self.limiter(binding).acquire()`, then the call.
  unfoldable pub take_slot : ProviderBinding → Acquired → LlmGateway → Tried × LlmGateway
  unfolding contact
  take_slot b (granted s) g =
      contact b (record g { now = s.at; limiters = put b.name s.limiter g.limiters })
  take_slot b index_error g = (broken "IndexError", g)
  take_slot b out_of_fuel g = (endless, g)

  -- What the breaker says decides.
  unfoldable pub pass_breaker : ProviderBinding → Option ℕ → LlmGateway → Tried × LlmGateway
  unfolding take_slot limiter
  pass_breaker b (some retry_after) g = (skipped retry_after, g)
  pass_breaker b none g = take_slot b (acquire_slot g.now (limiter b g)) g

  unfoldable pub try_provider : ProviderBinding → LlmGateway → Tried × LlmGateway
  unfolding pass_breaker breaker set_breaker
  try_provider b g =
      let checked = ensure_closed g.now (breaker b.name g) in
      pass_breaker b checked.1 (set_breaker b.name checked.0 g)

-- Why a provider of the chain did not answer.
pub data Failure : Type 0 where
  circuit_open : ℕ → Failure
  provider_failed : ProviderError → Failure

-- How a request ends; an error that is not of a provider passes through.
pub data Completed : Type 0 where
  response : LlmResponse → Completed
  budget_exceeded : Completed
  no_provider : Reason → Completed
  all_failed : Dict Failure → Completed
  passed_on : String → Completed
  never : Completed

module _ (samples : ℕ → ℕ) (took : ProviderBinding → ℕ → ℕ) (request : LlmRequest) where
  -- The loop over the chain.
  pub serve :
      List ProviderBinding → Dict Failure → List String → LlmGateway → Completed × LlmGateway
  unfolding try_provider usage_of
  serve [] failures attempted g = (all_failed failures, g)
  serve (b ∷ bs) failures attempted g =
      let tried = try_provider samples took request b g in
      elim tried.0 [
        | skipped r ↦ serve bs (put b.name (circuit_open r) failures) attempted tried.1
        | unreachable e ↦
            serve bs (put b.name (provider_failed e) failures) (attempted ++ b.name ∷ []) tried.1
        | answer c ↦ (
          response
              (record { content = c.content; usage = usage_of b c; fallbacks_used = attempted }),
          tried.1,
        )
        | broken s ↦ (passed_on s, tried.1)
        | endless ↦ (never, tried.1)
      ]

  unfoldable pub serve_routed : Routed → LlmGateway → Completed × LlmGateway
  unfolding serve
  serve_routed (no_eligible r) g = (no_provider r, g)
  serve_routed (providers ps) g = serve ps [] [] g

  unfoldable pub complete : LlmGateway → Completed × LlmGateway
  unfolding serve_routed
  complete g =
      if over_budget g.cost_tracker
      then (budget_exceeded, g)
      else serve_routed (chain request.complexity request.sensitivity g.bindings) g
