-- ===== src/Recommendations/Tests.antt =====
-- A recommendation of src/aidss/recommendations on the evidence of two analyzers.
use stock_recommendation_be.Base.{
  map, ℕ, ◌+◌, ◌*◌, ◌/◌, ◌≡◌, ◌≤◌, ◌<◌, ◌↔◌, inr, refl, String, true, false, List, [], ◌∷◌, some,
  none, All, length, str_eq, arith,
}
use native.Mathlib.Nat.{div-mul-le_self, lt-div-mul-add}
use stock_recommendation_be.Base.Json.{obj, end}
use stock_recommendation_be.Base.Texts.{written, is_space}
use stock_recommendation_be.Domain.{strong_buy, label_direction, is_strong}
use stock_recommendation_be.Base.Dict.{get, put}
use stock_recommendation_be.Base.Sorting.{sort_by}
use stock_recommendation_be.Llm.Retry.{answered, call_with_retry}
use stock_recommendation_be.Llm.RateLimiter.{acquire_slot}
use stock_recommendation_be.Llm.CircuitBreaker.{ensure_closed}
use stock_recommendation_be.Llm.Cost.{over_budget}
use stock_recommendation_be.Llm.Router.{
  standard, public, ChatCompletion, AiProvider, ProviderBinding, chain,
}
use stock_recommendation_be.Llm.Gateway.{LlmGateway, complete}
use stock_recommendation_be.Prompts.Validator.{validate}
use stock_recommendation_be.Recommendations.Calibration.{
  Fraction, AnalyzerOutput, CalibrationResult, bullish, sufficient, calibrate, is_usable,
  evidence_direction, signals_from_agent_outputs, source_weight,
}
use stock_recommendation_be.Recommendations.Calibration.Bounds.{IsNearest}
use stock_recommendation_be.Recommendations.Calibration.Sources.{usable_count}
use stock_recommendation_be.Recommendations.Levels.{Snapshot, derive_levels}
use stock_recommendation_be.Recommendations.Rules.{RecommendationOutput, ok, check}
use stock_recommendation_be.Recommendations.Rules.Contract.{IsAcceptable, check_iff}
use stock_recommendation_be.Recommendations.Strategy.{build_strategy}
use stock_recommendation_be.Recommendations.Strategy.Phrases.{Phrase}
use stock_recommendation_be.Recommendations.Strategy.Stances.{
  IsCoherent, SameStances, build_strategy-IsCoherent,
}
use stock_recommendation_be.Recommendations.Engine.{
  RecommendationEngine, RecommendationResult, Setting, generate,
}
use stock_recommendation_be.Recommendations.Engine.Stored.{Concludes, generate-Concludes}
use stock_recommendation_be.Recommendations.Engine.Strong.{strong_result_has_sources}

-- The nearest number of tenths, upwards from the middle.
abbrev half_up : Fraction → ℕ
half_up f = (20 * f.num + f.den) / (2 * f.den)

half_up-IsNearest : IsNearest half_up
half_up-IsNearest f pos = grind (
  arith,
  div-mul-le_self (20 * f.num + f.den) (2 * f.den),
  lt-div-mul-add {a = 20 * f.num + f.den} twice,
)
  where
    twice : 0 < 2 * f.den
    twice = omega arith

abbrev technical : AnalyzerOutput
technical = record {
  bias = some bullish;
  sentiment_score = none;
  data_sufficiency = some sufficient;
}

abbrev outputs : List (String × AnalyzerOutput)
outputs = ("technical_analyzer", technical) ∷ ("fundamental_analyzer", technical) ∷ []

abbrev one_output : List (String × AnalyzerOutput)
one_output = ("technical_analyzer", technical) ∷ ("market_analyzer", technical) ∷ []

abbrev snapshot : Snapshot
snapshot = record {
  last_close = some 9000000000;
  support = 8500000000 ∷ [];
  resistance = 9500000000 ∷ [];
  indicators = ("rsi(14)", some 60000000) ∷ ("atr(14)", some 150000000) ∷ [];
}

abbrev output : RecommendationOutput
output = record {
  label = strong_buy;
  reasoning = "momentum and earnings agree";
  supporting_factors = "above its average" ∷ "earnings grow" ∷ [];
  conflicting_factors = "the sector is weak" ∷ "  " ∷ [];
  risk_factors = "rates" ∷ [];
  bullish_scenario = "a breakout";
  bearish_scenario = "a return to the range";
}

abbrev evidence : CalibrationResult
evidence = calibrate half_up outputs 2 1

check_iff_example : (ok (check output evidence) ≡ true) ↔ IsAcceptable output evidence
check_iff_example = check_iff output evidence

abbrev completion : ChatCompletion
completion = record {
  content = "{}";
  model = "llama";
  prompt_tokens = 1000;
  completion_tokens = 100;
}

abbrev answers : AiProvider
answers = record { chat_completion = λ c n. answered completion; supports_structured_output = true }

abbrev own : ProviderBinding
own = record {
  name = "own";
  provider = answers;
  model = "llama";
  handles = standard ∷ [];
  priority = 20;
  self_hosted = true;
  input_cost_per_1k = 40;
  output_cost_per_1k = 80;
  requests_per_minute = 60;
}

abbrev gateway : LlmGateway
gateway = record {
  bindings = own ∷ [];
  retry_policy = record { max_attempts = 3; base_delay = 1; max_delay = 30; jitter = 250 };
  cost_tracker = record { ceiling = none; spent = 0; by_agent = []; by_provider = [] };
  circuit_failure_threshold = 3;
  circuit_reset_timeout = 30000;
  breakers = [];
  limiters = [];
  now = 0;
  calls_made = 0;
  contacted = [];
}

abbrev engine : RecommendationEngine
engine = record {
  runner = record {
    gateway = gateway;
    recorder = none;
    max_validation_retries = 1;
    high_privacy = false;
    complexity_cap = none;
  };
  recommendations = [];
  max_rule_retries = 1;
}

-- Every reply of the model validates to the output above.
abbrev setting : Setting
setting = record {
  samples = λ n. 0;
  took = λ b n. 1000;
  round_tenths = half_up;
  compose = λ c. record {
    messages = "BBCA?" ∷ [];
    last_content = "BBCA?";
    template_name = "recommendation";
    template_version = "1";
  };
  checks = record {
    strip_code_fence = λ raw. raw;
    loads = λ body. inr (obj end);
    find_execution_language = λ text. [];
    model_validate = λ j. inr output;
  };
  agent = record {
    name = "recommendation_agent";
    template_name = "recommendation";
    complexity = standard;
    sensitivity = public;
  };
  corrective_instruction = λ report. "fix it";
  language = "en";
  new_id = length;
  analyzer_outputs = outputs;
  indicator_snapshot = some snapshot;
  analysis_result_id = some 7;
  persist = true;
}

generate-Concludes_example : Concludes setting [] (generate setting engine)
generate-Concludes_example = generate-Concludes setting engine

abbrev result : RecommendationResult
result = record {
  output = output;
  calibration = evidence;
  levels = derive_levels (some snapshot) strong_buy;
  attempts = 1;
  recommendation_id = some 0;
  language = "en";
}

strong_result_has_sources_example :
    (2 ≤ usable_count evidence) × (1 ≤ length (written output.conflicting_factors))
unfolding generate check ok written is_space is_strong evidence_direction label_direction calibrate
    signals_from_agent_outputs source_weight is_usable complete str_eq over_budget chain sort_by
    ensure_closed get acquire_slot call_with_retry put validate
strong_result_has_sources_example =
    strong_result_has_sources setting engine result half_up-IsNearest refl refl

abbrev phrase : String → Phrase → String
phrase language _ = language

abbrev price_text : ℕ → String
price_text _ = "9,000.00"

build_strategy-IsCoherent_example :
    let v =
      build_strategy phrase price_text strong_buy 480
        (some 850000)
        (some 950000)
        none
        (some 870000) in
    IsCoherent strong_buy 480 v.reading
    × (map (λ t. t.0) v.translations ≡ "id" ∷ [])
    × All (λ t. IsCoherent strong_buy 480 t.1 × SameStances v.reading t.1) v.translations
build_strategy-IsCoherent_example =
    build_strategy-IsCoherent phrase price_text strong_buy 480 (some 850000) (some 950000) none
      (some 870000)
