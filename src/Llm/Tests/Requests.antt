-- ===== src/Llm/Tests/Requests.antt =====
-- The router, the accounts and the gateway of src/aidss/llm at a small configuration: a hosted
-- provider that times out, a self-hosted one that answers, and the requests of an agent.
use mathlib.Core.List.{Permᴰ}
use stock_recommendation_be.Base.{
  ℕ, ◌+◌, ◌≤◌, ◌<◌, ◌≡◌, ◌⊎◌, refl, true, false, some, List, [], ◌∷◌, ◌++◌, arith, ◌==◌, filter,
  map, All, str_eq,
}
use stock_recommendation_be.Base.Dict.{get, put}
use stock_recommendation_be.Base.Sorting.{IsSortedBy, sort_by}
use stock_recommendation_be.Llm.Retry.{ProviderError, answered, unavailable, call_with_retry}
use stock_recommendation_be.Llm.RateLimiter.{acquire_slot}
use stock_recommendation_be.Llm.CircuitBreaker.{ensure_closed}
use stock_recommendation_be.Llm.Cost.{over_budget}
use stock_recommendation_be.Llm.Cost.Budget.{IsBalanced, total}
use stock_recommendation_be.Llm.Router.{
  light, standard, public, sensitive, ChatCompletion, AiProvider, ProviderBinding, can_serve,
  providers, chain,
}
use stock_recommendation_be.Llm.Router.Chain.{chain_lem}
use stock_recommendation_be.Llm.Gateway.{
  LlmRequest, LlmResponse, LlmGateway, provider_failed, budget_exceeded, complete, usage_of,
}
use stock_recommendation_be.Llm.Gateway.Contacts.{sensitive_stays_home, response_accounts}
use stock_recommendation_be.Llm.Gateway.Spending.{cost_of, complete_spending}
use stock_recommendation_be.Llm.Gateway.Returns.{HasOutcome, complete-HasOutcome}
use stock_recommendation_be.Llm.Gateway.Fallback.{IsReported, AllDidNotAnswer, all_failed_reports}

abbrev unreachable_error : ProviderError
unreachable_error = record { provider = "hosted"; message = "timeout"; retryable = false }

abbrev times_out : AiProvider
times_out = record {
  chat_completion = λ c n. unavailable unreachable_error;
  supports_structured_output = true;
}

abbrev completion : ChatCompletion
completion = record {
  content = "hold";
  model = "llama";
  prompt_tokens = 1000;
  completion_tokens = 100;
}

abbrev answers : AiProvider
answers = record {
  chat_completion = λ c n. answered completion;
  supports_structured_output = false;
}

abbrev hosted : ProviderBinding
hosted = record {
  name = "hosted";
  provider = times_out;
  model = "gpt";
  handles = light ∷ standard ∷ [];
  priority = 10;
  self_hosted = false;
  input_cost_per_1k = 500;
  output_cost_per_1k = 1500;
  requests_per_minute = 60;
}

abbrev own : ProviderBinding
own = record {
  name = "own";
  provider = answers;
  model = "llama";
  handles = light ∷ [];
  priority = 20;
  self_hosted = true;
  input_cost_per_1k = 40;
  output_cost_per_1k = 80;
  requests_per_minute = 60;
}

chain_lem_example :
    IsSortedBy (λ b. b.priority) (hosted ∷ own ∷ [])
    × Permᴰ (hosted ∷ own ∷ []) (filter (can_serve light public) (own ∷ hosted ∷ []))
    × (filter (λ b. b.priority == 20) (hosted ∷ own ∷ [])
        ≡ filter (λ b. b.priority == 20) (filter (can_serve light public) (own ∷ hosted ∷ [])))
unfolding chain sort_by
chain_lem_example = chain_lem light public (own ∷ hosted ∷ []) (hosted ∷ own ∷ []) 20 refl

abbrev gateway : LlmGateway
gateway = record {
  bindings = own ∷ hosted ∷ [];
  retry_policy = record { max_attempts = 3; base_delay = 1; max_delay = 30; jitter = 250 };
  cost_tracker = record { ceiling = some 1000; spent = 0; by_agent = []; by_provider = [] };
  circuit_failure_threshold = 3;
  circuit_reset_timeout = 30000;
  breakers = [];
  limiters = [];
  now = 0;
  calls_made = 0;
  contacted = [];
}

abbrev failing_gateway : LlmGateway
failing_gateway = record gateway { bindings = hosted ∷ [] }

abbrev question : LlmRequest
question = record {
  messages = "BBCA?" ∷ [];
  complexity = light;
  sensitivity = public;
  expects_json = true;
  agent = some "news";
}

abbrev private_question : LlmRequest
private_question = record question { sensitivity = sensitive }

abbrev no_jitter : ℕ → ℕ
no_jitter _ = 0

abbrev a_second : ProviderBinding → ℕ → ℕ
a_second _ _ = 1000

sensitive_stays_home_example :
    (new : List ProviderBinding) × ((complete no_jitter a_second private_question
        gateway).1.contacted
      ≡ [] ++ new)
    × All (λ b. b.self_hosted ≡ true) new
sensitive_stays_home_example = sensitive_stays_home no_jitter a_second private_question gateway refl

complete_spending_example :
    let r = complete no_jitter a_second question gateway in
    IsBalanced r.1.cost_tracker
    × (((1000 ≤ 0) × (r ≡ (budget_exceeded, gateway)))
        ⊎ ((0 < 1000) × (r.1.cost_tracker.spent ≡ 0 + cost_of r.0)))
unfolding total
complete_spending_example =
    complete_spending no_jitter a_second question gateway 1000 refl (refl, omega arith)

complete-HasOutcome_example :
    HasOutcome no_jitter a_second question (complete no_jitter a_second question gateway)
complete-HasOutcome_example =
    complete-HasOutcome no_jitter a_second question gateway (omega arith, (omega arith, tt)) tt

abbrev hold : LlmResponse
hold = record { content = "hold"; usage = usage_of own completion; fallbacks_used = "hosted" ∷ [] }

response_accounts_example :
    (failed : List ProviderBinding) × (b : ProviderBinding) × ((complete no_jitter a_second question
        gateway).1.contacted
      ≡ [] ++ (failed ++ b ∷ []))
    × ("hosted" ∷ [] ≡ map (λ b. b.name) failed)
    × (hold.usage.provider ≡ b.name)
    × All (λ b. can_serve light public b ≡ true) (failed ++ b ∷ [])
unfolding complete str_eq over_budget chain sort_by ensure_closed get acquire_slot call_with_retry
    put
response_accounts_example = response_accounts no_jitter a_second question gateway hold refl

all_failed_reports_example :
    (ps : List ProviderBinding) × (chain light public (hosted ∷ []) ≡ providers ps)
    × AllDidNotAnswer no_jitter a_second question ps failing_gateway []
        (("hosted", provider_failed unreachable_error) ∷ [])
    × All (IsReported (("hosted", provider_failed unreachable_error) ∷ [])) ps
unfolding complete str_eq over_budget chain sort_by ensure_closed get acquire_slot call_with_retry
    put
all_failed_reports_example =
    all_failed_reports no_jitter a_second question failing_gateway
      (("hosted", provider_failed unreachable_error) ∷ []) refl
