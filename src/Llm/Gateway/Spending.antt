-- ===== src/Llm/Gateway/Spending.antt =====
-- What a request costs, and the ceiling: `LLMGateway.complete` of src/aidss/llm/gateway.py.
use mathlib.Core.Path.{subst}
use stock_recommendation_be.Base.{
  ℕ, ◌+◌, ◌≤◌, ◌<◌, ◌≡◌, refl, sym, ◌∙◌, ◌⊎◌, inl, inr, String, true, false, Option, none, some,
  List, [], ◌∷◌, ◌++◌, arith, Bool-cases, leb, leb→le, leb-false,
}
use stock_recommendation_be.Base.Dict.{Dict, put}
use stock_recommendation_be.Llm.Retry.{CallEnd, value, raised, propagated, assertion_failed}
use stock_recommendation_be.Llm.RateLimiter.{
  Acquired, granted, index_error, out_of_fuel, acquire_slot,
}
use stock_recommendation_be.Llm.CircuitBreaker.{ensure_closed}
use stock_recommendation_be.Llm.Cost.{Usage, CostTracker, over_budget, record_usage}
use stock_recommendation_be.Llm.Cost.Budget.{IsBalanced, record_usage-IsBalanced}
use stock_recommendation_be.Llm.Router.{
  ChatCompletion, ProviderBinding, Routed, providers, no_eligible, chain,
}
use stock_recommendation_be.Llm.Gateway.{
  LlmRequest, LlmGateway, breaker, set_breaker, limiter, usage_of, Tried, skipped, unreachable,
  answer, broken, endless, retried, after_call, settle_call, contact, take_slot, pass_breaker,
  try_provider, Failure, circuit_open, provider_failed, Completed, response, budget_exceeded, serve,
  serve_routed, complete,
}
use stock_recommendation_be.Llm.Gateway.Loop.{after_try, serve_cons}

-- What a result costs.
abbrev pub cost_of : Completed → ℕ
cost_of (response r) = r.usage.cost_estimate
cost_of _ = 0

abbrev cost_of_try : ProviderBinding → Tried → ℕ
cost_of_try b (answer c) = (usage_of b c).cost_estimate
cost_of_try b _ = 0

-- The accounts after a step that costs so much.
abbrev Spends : CostTracker → ℕ → CostTracker → Type 0
Spends before cost after =
    IsBalanced after × (after.spent ≡ before.spent + cost) × (after.ceiling ≡ before.ceiling)

Spends-nothing : (t : CostTracker) → IsBalanced t → Spends t 0 t
Spends-nothing t b = (b, omega arith, refl)

record_usage-ceiling :
    (u : Usage) (agent : Option String) (t : CostTracker)
    → (record_usage u agent t).ceiling ≡ t.ceiling
unfolding record_usage
record_usage-ceiling u agent t = refl

module _ (samples : ℕ → ℕ) (took : ProviderBinding → ℕ → ℕ) (request : LlmRequest) where
  settle_call-Spends :
      (b : ProviderBinding) (e : CallEnd ChatCompletion) (g : LlmGateway)
      → IsBalanced g.cost_tracker
      → let r = settle_call samples took request b e g in
        Spends g.cost_tracker (cost_of_try b r.0) r.1.cost_tracker
  unfolding settle_call set_breaker
  settle_call-Spends b (value c) g i =
      let h = record_usage-IsBalanced (usage_of b c) request.agent g.cost_tracker i in
      (h.0, h.1, record_usage-ceiling (usage_of b c) request.agent g.cost_tracker)
  settle_call-Spends b (raised e) g i = Spends-nothing g.cost_tracker i
  settle_call-Spends b (propagated s) g i = Spends-nothing g.cost_tracker i
  settle_call-Spends b assertion_failed g i = Spends-nothing g.cost_tracker i

  take_slot-Spends :
      (b : ProviderBinding) (a : Acquired) (g : LlmGateway)
      → IsBalanced g.cost_tracker
      → let r = take_slot samples took request b a g in
        Spends g.cost_tracker (cost_of_try b r.0) r.1.cost_tracker
  unfolding take_slot contact
  take_slot-Spends b (granted s) g i =
      let g' = record g { now = s.at; limiters = put b.name s.limiter g.limiters } in
      settle_call-Spends b (retried samples took request b g').result
        (after_call samples took request b g') i
  take_slot-Spends b index_error g i = Spends-nothing g.cost_tracker i
  take_slot-Spends b out_of_fuel g i = Spends-nothing g.cost_tracker i

  pass_breaker-Spends :
      (b : ProviderBinding) (o : Option ℕ) (g : LlmGateway)
      → IsBalanced g.cost_tracker
      → let r = pass_breaker samples took request b o g in
        Spends g.cost_tracker (cost_of_try b r.0) r.1.cost_tracker
  unfolding pass_breaker
  pass_breaker-Spends b (some r) g i = Spends-nothing g.cost_tracker i
  pass_breaker-Spends b none g i = take_slot-Spends b (acquire_slot g.now (limiter b g)) g i

  try_provider-Spends :
      (b : ProviderBinding) (g : LlmGateway)
      → IsBalanced g.cost_tracker
      → let r = try_provider samples took request b g in
        Spends g.cost_tracker (cost_of_try b r.0) r.1.cost_tracker
  unfolding try_provider set_breaker
  try_provider-Spends b g i =
      let checked = ensure_closed g.now (breaker b.name g) in
      pass_breaker-Spends b checked.1 (set_breaker b.name checked.0 g) i

  Spends-trans : (s t u : CostTracker) (c : ℕ) → Spends s 0 t → Spends t c u → Spends s c u
  Spends-trans s t u c a b = (b.0, omega (arith, a.1, b.1), b.2 ∙ a.2)

  abbrev SpendsIts : CostTracker → Completed × LlmGateway → Type 0
  SpendsIts before r = Spends before (cost_of r.0) r.1.cost_tracker

  after_try-SpendsIts :
      (b : ProviderBinding) (bs : List ProviderBinding)
      → ((failures : Dict Failure) (attempted : List String) (g : LlmGateway)
          → IsBalanced g.cost_tracker
          → SpendsIts g.cost_tracker (serve samples took request bs failures attempted g))
      → (failures : Dict Failure) (attempted : List String) (t : Tried) (g : LlmGateway)
        (before : CostTracker)
      → Spends before (cost_of_try b t) g.cost_tracker
      → SpendsIts before (after_try samples took request b bs failures attempted t g)
  after_try-SpendsIts b bs ih failures attempted (skipped r) g before h =
      let r' = serve samples took request bs (put b.name (circuit_open r) failures) attempted g in
      Spends-trans before g.cost_tracker r'.1.cost_tracker (cost_of r'.0) h
        (ih (put b.name (circuit_open r) failures) attempted g h.0)
  after_try-SpendsIts b bs ih failures attempted (unreachable e) g before h =
      let r' =
        serve samples took request bs (put b.name (provider_failed e) failures)
          (attempted ++ b.name ∷ []) g in
      Spends-trans before g.cost_tracker r'.1.cost_tracker (cost_of r'.0) h
        (ih (put b.name (provider_failed e) failures) (attempted ++ b.name ∷ []) g h.0)
  after_try-SpendsIts b bs ih failures attempted (answer c) g before h = h
  after_try-SpendsIts b bs ih failures attempted (broken s) g before h = h
  after_try-SpendsIts b bs ih failures attempted endless g before h = h

  serve-SpendsIts :
      (bs : List ProviderBinding) (failures : Dict Failure) (attempted : List String)
      (g : LlmGateway)
      → IsBalanced g.cost_tracker
      → SpendsIts g.cost_tracker (serve samples took request bs failures attempted g)
  unfolding serve
  serve-SpendsIts [] failures attempted g i = Spends-nothing g.cost_tracker i
  serve-SpendsIts (b ∷ bs) failures attempted g i =
      let t = try_provider samples took request b g in
      subst (SpendsIts g.cost_tracker)
        (sym (serve_cons samples took request b bs failures attempted g))
        (after_try-SpendsIts b bs (serve-SpendsIts bs) failures attempted t.0 t.1 g.cost_tracker
          (try_provider-Spends b g i))

  serve_routed-SpendsIts :
      (c : Routed) (g : LlmGateway)
      → IsBalanced g.cost_tracker
      → SpendsIts g.cost_tracker (serve_routed samples took request c g)
  unfolding serve_routed
  serve_routed-SpendsIts (no_eligible r) g i = Spends-nothing g.cost_tracker i
  serve_routed-SpendsIts (providers ps) g i = serve-SpendsIts ps [] [] g i

  complete_under :
      (g : LlmGateway)
      → over_budget g.cost_tracker ≡ false
      → complete samples took request g
        ≡ serve_routed samples took request
            (chain request.complexity request.sensitivity g.bindings)
            g
  unfolding complete
  complete_under g o = rw o refl

  complete_over :
      (g : LlmGateway)
      → over_budget g.cost_tracker ≡ true
      → complete samples took request g ≡ (budget_exceeded, g)
  unfolding complete
  complete_over g o = rw o refl

  over_budget_ceiling :
      (t : CostTracker) (c : ℕ) → t.ceiling ≡ some c → over_budget t ≡ leb c t.spent
  unfolding over_budget
  over_budget_ceiling t c e = rw e refl

  -- Under a ceiling, and with accounts that agree: once the ceiling is spent, a request is refused and
  -- changes nothing, so that no provider is contacted; before that, it adds to what is spent exactly
  -- the cost of its response, and nothing if it has none. The accounts agree afterwards.
  pub complete_spending :
      (g : LlmGateway) (c : ℕ)
      → g.cost_tracker.ceiling ≡ some c
      → IsBalanced g.cost_tracker
      → let r = complete samples took request g in
        IsBalanced r.1.cost_tracker
        × (((c ≤ g.cost_tracker.spent) × (r ≡ (budget_exceeded, g)))
            ⊎ ((g.cost_tracker.spent < c)
                × (r.1.cost_tracker.spent ≡ g.cost_tracker.spent + cost_of r.0)))
  complete_spending g c e i = elim (Bool-cases (over_budget g.cost_tracker)) [
    | inl over ↦
        rw (complete_over g over)
          (i, inl (leb→le _ _ (sym (over_budget_ceiling g.cost_tracker c e) ∙ over), refl))
    | inr under ↦
        let h =
          serve_routed-SpendsIts (chain request.complexity request.sensitivity g.bindings) g i in
        rw (complete_under g under)
          (h.0, inr (leb-false _ _ (sym (over_budget_ceiling g.cost_tracker c e) ∙ under), h.1))
  ]
