-- ===== src/Agents/Tests.antt =====
-- A run of src/aidss/agents/base.py with a gateway whose hosted provider is down and whose own
-- provider answers.
use stock_recommendation_be.Base.{
  ℕ, ◌≡◌, refl, String, true, false, [], ◌∷◌, some, none, Option, inr, str_eq, if◌then◌else◌,
}
use stock_recommendation_be.Base.{◌↔◌, ◌≤◌, ◌⊎◌}
use stock_recommendation_be.Base.Json.{Json, obj, field, end, str, arr, nil, cons}
use stock_recommendation_be.Llm.Retry.{answered}
use stock_recommendation_be.Llm.Router.{
  standard, public, ChatCompletion, AiProvider, ProviderBinding,
}
use stock_recommendation_be.Llm.Gateway.{LlmGateway}
use stock_recommendation_be.Prompts.Validator.{
  Checks, validate, validate_object, check_language, scan,
}
use stock_recommendation_be.Prompts.Validator.Language.{
  itself, in_list, in_dict, first_item, first_field, validated_text_is_clean,
}
use stock_recommendation_be.Agents.{Agent, AgentRunner, Prompt, Correction, run}
use stock_recommendation_be.Agents.{tier, order_index}
use stock_recommendation_be.Agents.Triage.{Scan, assess, light_run, full_run, complexity_of}
use stock_recommendation_be.Agents.Triage.Depths.{IsQuiet, IsBusy, assess_lem}
use stock_recommendation_be.Agents.Privacy.{StaysHome, run-StaysHome}

abbrev completion : ChatCompletion
completion = record {
  content = "{}";
  model = "llama";
  prompt_tokens = 1000;
  completion_tokens = 100;
}

abbrev answers : AiProvider
answers = record { chat_completion = λ c n. answered completion; supports_structured_output = true }

abbrev own : ProviderBinding
own = record {
  name = "own";
  provider = answers;
  model = "llama";
  handles = standard ∷ [];
  priority = 20;
  self_hosted = true;
  input_cost_per_1k = 40;
  output_cost_per_1k = 80;
  requests_per_minute = 60;
}

abbrev gateway : LlmGateway
gateway = record {
  bindings = own ∷ record own { name = "hosted"; self_hosted = false; priority = 10 } ∷ [];
  retry_policy = record { max_attempts = 3; base_delay = 1; max_delay = 30; jitter = 250 };
  cost_tracker = record { ceiling = none; spent = 0; by_agent = []; by_provider = [] };
  circuit_failure_threshold = 3;
  circuit_reset_timeout = 30000;
  breakers = [];
  limiters = [];
  now = 0;
  calls_made = 0;
  contacted = [];
}

abbrev runner : AgentRunner
runner = record {
  gateway = gateway;
  recorder = some [];
  max_validation_retries = 1;
  high_privacy = true;
  complexity_cap = none;
}

abbrev analyst : Agent
analyst = record {
  name = "technical_analyzer";
  template_name = "technical";
  complexity = standard;
  sensitivity = public;
}

abbrev prompt : Option Correction → Prompt
prompt _ = record {
  messages = "BBCA?" ∷ [];
  last_content = "BBCA?";
  template_name = "technical";
  template_version = "1";
}

abbrev payload : Json
payload = obj (field "factors" (arr (cons (str "above its average") nil)) end)

-- Every reply is the payload, which refuses the word "buy".
abbrev checks : Checks String
checks = record {
  strip_code_fence = λ raw. raw;
  loads = λ body. inr payload;
  find_execution_language = λ text.
      if str_eq text "buy" then record { matched_text = "buy"; reason = "order" } ∷ [] else [];
  model_validate = λ j. inr "validated";
}

abbrev no_jitter : ℕ → ℕ
no_jitter _ = 0

abbrev a_second : ProviderBinding → ℕ → ℕ
a_second _ _ = 1000

validated_text_is_clean_example : checks.find_execution_language "above its average" ≡ []
unfolding validate validate_object check_language scan str_eq
validated_text_is_clean_example =
    validated_text_is_clean checks "reply" "validated" payload "above its average" refl refl
      (in_dict (first_field (in_list (first_item itself))))

run-StaysHome_example :
    StaysHome gateway (run no_jitter a_second prompt checks analyst none runner).1.gateway
run-StaysHome_example = run-StaysHome no_jitter a_second prompt checks analyst none runner refl

abbrev busy_scan : Scan
busy_scan = record { matched = "above average" ∷ []; range_ratio = some 160; volume_ratio = none }

assess_lem_example :
    (((assess busy_scan false).depth ≡ light_run) ↔ IsQuiet busy_scan)
    × (((assess busy_scan false).depth ≡ full_run) ↔ IsBusy busy_scan)
    × (order_index (tier analyst (some (complexity_of (assess busy_scan false).depth)))
        ≤ order_index analyst.complexity)
    × ((tier analyst (some (complexity_of (assess busy_scan false).depth)) ≡ analyst.complexity)
        ⊎ IsQuiet busy_scan)
assess_lem_example = assess_lem busy_scan analyst
