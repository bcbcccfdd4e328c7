-- ===== src/Llm/Cost/Budget.antt =====
-- The accounts of the cost tracker: `CostTracker` of src/aidss/llm/cost.py.
use stock_recommendation_be.Base.{
  ℕ, ◌+◌, ◌*◌, ◌≤◌, ◌<◌, ◌≡◌, refl, String, Option, none, some, [], ◌∷◌, get_or, str_eq, arith, inl,
  inr, Bool-cases,
}
use stock_recommendation_be.Base.Dict.{Dict, get, put}
use stock_recommendation_be.Llm.Cost.{
  Usage, estimate_cost, CostTracker, add_to, attribute, record_usage,
}

-- The sum of the amounts of a dict.
unfoldable pub total : Dict ℕ → ℕ
total [] = 0
total (e ∷ d) = e.1 + total d

total-put : (k : String) (v : ℕ) (d : Dict ℕ) → total (put k v d) + get_or 0 (get k d) ≡ total d + v
unfolding total get put
total-put k v [] = omega arith
total-put k v (e ∷ d) = elim (Bool-cases (str_eq e.0 k)) [
  | inl here ↦ rw here (omega arith)
  | inr later ↦ rw later (omega (arith, total-put k v d))
]

total-add_to : (k : String) (cost : ℕ) (d : Dict ℕ) → total (add_to k cost d) ≡ total d + cost
unfolding add_to
total-add_to k cost d = omega (arith, total-put k (get_or 0 (get k d) + cost) d)

total-attribute :
    (a : Option String) (cost : ℕ) (d : Dict ℕ) → total (attribute a cost d) ≤ total d + cost
unfolding attribute
total-attribute none cost d = omega arith
total-attribute (some a) cost d = ground (arith, total-add_to a cost d)

-- The accounts agree: the providers' shares add up to what is spent, and the agents' to no more.
abbrev pub IsBalanced : CostTracker → Type 0
IsBalanced t = (total t.by_provider ≡ t.spent) × (total t.by_agent ≤ t.spent)

-- Recording a call adds its cost to what is spent, and keeps the accounts in agreement.
pub record_usage-IsBalanced :
    (u : Usage) (agent : Option String) (t : CostTracker)
    → IsBalanced t
    → IsBalanced (record_usage u agent t)
      × ((record_usage u agent t).spent ≡ t.spent + u.cost_estimate)
unfolding record_usage
record_usage-IsBalanced u agent t b = (
  (
    omega (arith, b.0, total-add_to u.provider u.cost_estimate t.by_provider),
    omega (arith, b.1, total-attribute agent u.cost_estimate t.by_agent),
  ),
  refl,
)

-- The estimate is the exact cost, a number of thousandths of the unit, rounded to within a half.
pub estimate_cost_near :
    (p c i o : ℕ)
    → (estimate_cost p c i o * 1000 ≤ p * i + c * o + 500)
      × (p * i + c * o < estimate_cost p c i o * 1000 + 500)
unfolding estimate_cost
estimate_cost_near p c i o = (omega arith, omega arith)
