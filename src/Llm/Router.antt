-- ===== src/Llm/Router.antt =====
-- The router: which providers may serve a request, in which order (src/aidss/llm/router.py).
-- Prices are in millionths of the currency, per thousand tokens. The adapter of a provider is code
-- of a plugin: a binding holds what it answers, as a function of the request and of how many calls
-- were made before.
pub mod Chain
use stock_recommendation_be.Base.{
  ℕ, String, Bool, true, false, ◌&&◌, not, List, [], ◌∷◌, filter, find, any, map, str_eq, Option,
  if◌then◌else◌,
}
use stock_recommendation_be.Base.Sorting.{sort_by}
use stock_recommendation_be.Llm.Retry.{Attempt}

pub data TaskComplexity : Type 0 where
  light : TaskComplexity
  standard : TaskComplexity
  complex : TaskComplexity

pub data Sensitivity : Type 0 where
  public : Sensitivity
  sensitive : Sensitivity

-- What an adapter answers a call with.
pub record ChatCompletion : Type 0 where
  pub content : String
  pub model : String
  pub prompt_tokens : ℕ
  pub completion_tokens : ℕ

-- What the gateway passes to an adapter; temperature and response format apart.
pub record ChatCall : Type 0 where
  pub messages : List String
  pub model : String
  pub json_mode : Bool

pub record AiProvider : Type 0 where
  pub chat_completion : ChatCall → ℕ → Attempt ChatCompletion
  pub supports_structured_output : Bool

pub record ProviderBinding : Type 0 where
  pub name : String
  pub provider : AiProvider
  pub model : String
  pub handles : List TaskComplexity
  pub priority : ℕ
  pub self_hosted : Bool
  pub input_cost_per_1k : ℕ
  pub output_cost_per_1k : ℕ
  pub requests_per_minute : ℕ

unfoldable pub same_complexity : TaskComplexity → TaskComplexity → Bool
same_complexity light light = true
same_complexity standard standard = true
same_complexity complex complex = true
same_complexity _ _ = false

unfoldable pub is_sensitive : Sensitivity → Bool
is_sensitive public = false
is_sensitive sensitive = true

unfoldable pub serves_complexity : TaskComplexity → ProviderBinding → Bool
unfolding same_complexity
serves_complexity c b = any (same_complexity c) b.handles

unfoldable pub can_serve : TaskComplexity → Sensitivity → ProviderBinding → Bool
unfolding serves_complexity is_sensitive
can_serve c s b =
    if not (serves_complexity c b)
    then false
    else if is_sensitive s && not b.self_hosted
    then false
    else true

-- Which of the three messages of `_why_nothing_matched` it is, with what is inserted into it.
pub data Reason : Type 0 where
  none_configured : Reason
  none_handles : TaskComplexity → List String → Reason
  none_self_hosted : Sensitivity → List String → Reason

unfoldable pub why_nothing_matched : TaskComplexity → Sensitivity → List ProviderBinding → Reason
unfolding serves_complexity
why_nothing_matched c s [] = none_configured
why_nothing_matched c s (b ∷ bs) = elim (filter (serves_complexity c) (b ∷ bs)) [
  | [] ↦ none_handles c (map (λ b. b.name) (b ∷ bs))
  | handling ↦ none_self_hosted s (map (λ b. b.name) handling)
]

-- The chain, or NoEligibleProviderError.
pub data Routed : Type 0 where
  providers : List ProviderBinding → Routed
  no_eligible : Reason → Routed

unfoldable pub chain : TaskComplexity → Sensitivity → List ProviderBinding → Routed
unfolding can_serve why_nothing_matched
chain c s bindings = elim (filter (can_serve c s) bindings) [
  | [] ↦ no_eligible (why_nothing_matched c s bindings)
  | b ∷ bs ↦ providers (sort_by (λ b. b.priority) (b ∷ bs))
]

unfoldable pub get : String → List ProviderBinding → Option ProviderBinding
get name bindings = find (λ b. str_eq b.name name) bindings
