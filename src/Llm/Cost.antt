-- ===== src/Llm/Cost.antt =====
-- Cost accounting: src/aidss/llm/cost.py. Amounts are whole millionths of the currency, the quantum
-- to which the source rounds; prices are millionths per thousand tokens.
pub mod Budget
use stock_recommendation_be.Base.{
  ℕ, ◌+◌, ◌*◌, ◌/◌, String, Bool, true, false, ◌&&◌, not, Option, none, some, List, [], ◌∷◌, leb,
  get_or, str_eq, if◌then◌else◌,
}
use stock_recommendation_be.Base.Dict.{Dict, get, put}

pub record Usage : Type 0 where
  pub provider : String
  pub model : String
  pub prompt_tokens : ℕ
  pub completion_tokens : ℕ
  pub cost_estimate : ℕ

unfoldable pub total_tokens : Usage → ℕ
total_tokens u = u.prompt_tokens + u.completion_tokens

-- Rounded half up.
unfoldable pub estimate_cost :
    (prompt_tokens completion_tokens input_cost_per_1k output_cost_per_1k : ℕ) → ℕ
estimate_cost p c i o = (p * i + c * o + 500) / 1000

pub record CostTracker : Type 0 where
  pub ceiling : Option ℕ
  pub spent : ℕ
  pub by_agent : Dict ℕ
  pub by_provider : Dict ℕ

-- Whether `check_budget` raises BudgetExceededError.
unfoldable pub over_budget : CostTracker → Bool
over_budget t = elim t.ceiling [ none ↦ false | some c ↦ leb c t.spent ]

-- `d[k] = d.get(k, 0) + cost`.
unfoldable pub add_to : String → ℕ → Dict ℕ → Dict ℕ
add_to k cost d = put k (get_or 0 (get k d) + cost) d

-- `if agent:`, no agent and an empty one alike.
unfoldable pub attribute : Option String → ℕ → Dict ℕ → Dict ℕ
unfolding add_to
attribute none cost d = d
attribute (some a) cost d = if not (str_eq a "") then add_to a cost d else d

unfoldable pub record_usage : Usage → Option String → CostTracker → CostTracker
unfolding add_to attribute
record_usage u agent t = record t {
  spent = t.spent + u.cost_estimate;
  by_provider = add_to u.provider u.cost_estimate t.by_provider;
  by_agent = attribute agent u.cost_estimate t.by_agent;
}
