-- ===== src/Llm/Gateway/Loop.antt =====
-- The body of the loop over the chain, provider by provider: `LLMGateway.complete` of
-- src/aidss/llm/gateway.py.
use mathlib.Core.Path.{subst}
use stock_recommendation_be.Base.{
  ℕ, ◌≡◌, refl, sym, String, Option, none, some, List, [], ◌∷◌, ◌++◌, append-nil, All, ◌⊎◌, inl,
  inr,
}
use stock_recommendation_be.Base.Dict.{Dict, put}
use stock_recommendation_be.Llm.Retry.{CallEnd, value, raised, propagated, assertion_failed}
use stock_recommendation_be.Llm.RateLimiter.{
  Acquired, granted, index_error, out_of_fuel, acquire_slot,
}
use stock_recommendation_be.Llm.CircuitBreaker.{ensure_closed}
use stock_recommendation_be.Llm.Router.{ChatCompletion, ProviderBinding}
use stock_recommendation_be.Llm.Gateway.{
  LlmRequest, LlmGateway, breaker, set_breaker, limiter, usage_of, Tried, skipped, unreachable,
  answer, broken, endless, retried, after_call, settle_call, contact, take_slot, pass_breaker,
  try_provider, Failure, circuit_open, provider_failed, Completed, response, passed_on, never,
  serve,
}

-- Whom trying a provider reached: an error that passes through may come before or out of the call.
abbrev pub Reached : Tried → ProviderBinding → List ProviderBinding → Type 0
Reached (skipped _) b l = l ≡ []
Reached (unreachable _) b l = l ≡ b ∷ []
Reached (answer _) b l = l ≡ b ∷ []
Reached (broken _) b l = (l ≡ []) ⊎ (l ≡ b ∷ [])
Reached endless b l = l ≡ []

-- A result, and whom it took beyond those contacted before.
abbrev pub Reaches : List ProviderBinding → ProviderBinding → Tried × LlmGateway → Type 0
Reaches before b r = (l : List ProviderBinding) × (r.1.contacted ≡ before ++ l) × Reached r.0 b l

pub Reached-All :
    (P : ProviderBinding → Type 0) (t : Tried) (b : ProviderBinding) (l : List ProviderBinding)
    → P b
    → Reached t b l
    → All P l
Reached-All P (skipped _) b l p e = subst (All P) (sym e) tt
Reached-All P (unreachable _) b l p e = subst (All P) (sym e) (p, tt)
Reached-All P (answer _) b l p e = subst (All P) (sym e) (p, tt)
Reached-All P (broken _) b l p (inl e) = subst (All P) (sym e) tt
Reached-All P (broken _) b l p (inr e) = subst (All P) (sym e) (p, tt)
Reached-All P endless b l p e = subst (All P) (sym e) tt

module _ (samples : ℕ → ℕ) (took : ProviderBinding → ℕ → ℕ) (request : LlmRequest) where
  settle_call-Reaches :
      (b : ProviderBinding) (e : CallEnd ChatCompletion) (g : LlmGateway)
      (before : List ProviderBinding)
      → g.contacted ≡ before ++ b ∷ []
      → Reaches before b (settle_call samples took request b e g)
  unfolding settle_call set_breaker
  settle_call-Reaches b (value c) g before h = (b ∷ [], h, refl)
  settle_call-Reaches b (raised e) g before h = (b ∷ [], h, refl)
  settle_call-Reaches b (propagated s) g before h = (b ∷ [], h, inr refl)
  settle_call-Reaches b assertion_failed g before h = (b ∷ [], h, inr refl)

  take_slot-Reaches :
      (b : ProviderBinding) (a : Acquired) (g : LlmGateway)
      → Reaches g.contacted b (take_slot samples took request b a g)
  unfolding take_slot contact
  take_slot-Reaches b (granted s) g =
      let g' = record g { now = s.at; limiters = put b.name s.limiter g.limiters } in
      settle_call-Reaches b (retried samples took request b g').result
        (after_call samples took request b g') g.contacted refl
  take_slot-Reaches b index_error g = ([], append-nil g.contacted, inl refl)
  take_slot-Reaches b out_of_fuel g = ([], append-nil g.contacted, refl)

  pass_breaker-Reaches :
      (b : ProviderBinding) (o : Option ℕ) (g : LlmGateway)
      → Reaches g.contacted b (pass_breaker samples took request b o g)
  unfolding pass_breaker
  pass_breaker-Reaches b (some r) g = ([], append-nil g.contacted, refl)
  pass_breaker-Reaches b none g = take_slot-Reaches b (acquire_slot g.now (limiter b g)) g

  pub try_provider-Reaches :
      (b : ProviderBinding) (g : LlmGateway)
      → Reaches g.contacted b (try_provider samples took request b g)
  unfolding try_provider set_breaker
  try_provider-Reaches b g =
      let checked = ensure_closed g.now (breaker b.name g) in
      pass_breaker-Reaches b checked.1 (set_breaker b.name checked.0 g)

  -- The rest of the loop after one provider.
  abbrev pub after_try :
      ProviderBinding
      → List ProviderBinding
      → Dict Failure
      → List String
      → Tried
      → LlmGateway
      → Completed × LlmGateway
  after_try b bs failures attempted (skipped r) g =
      serve samples took request bs (put b.name (circuit_open r) failures) attempted g
  after_try b bs failures attempted (unreachable e) g =
      serve samples took request bs (put b.name (provider_failed e) failures)
        (attempted ++ b.name ∷ []) g
  after_try b bs failures attempted (answer c) g = (
    response (record { content = c.content; usage = usage_of b c; fallbacks_used = attempted }),
    g,
  )
  after_try b bs failures attempted (broken s) g = (passed_on s, g)
  after_try b bs failures attempted endless g = (never, g)

  pub serve_cons :
      (b : ProviderBinding) (bs : List ProviderBinding) (failures : Dict Failure)
      (attempted : List String) (g : LlmGateway)
      → serve samples took request (b ∷ bs) failures attempted g ≡ (
          let t = try_provider samples took request b g in
          after_try b bs failures attempted t.0 t.1)
  unfolding serve
  serve_cons b bs failures attempted g =
      let tried = try_provider samples took request b g in
      elim tried.0
        as (λ t.
          (elim t as (λ _. Completed × LlmGateway) [
            | skipped r ↦
                serve samples took request bs (put b.name (circuit_open r) failures) attempted
                  tried.1
            | unreachable e ↦
                serve samples took request bs (put b.name (provider_failed e) failures)
                  (attempted ++ b.name ∷ []) tried.1
            | answer c ↦ (
              response (record {
                content = c.content;
                usage = usage_of b c;
                fallbacks_used = attempted;
              }),
              tried.1,
            )
            | broken s ↦ (passed_on s, tried.1)
            | endless ↦ (never, tried.1)
          ])
          ≡ after_try b bs failures attempted t tried.1) [
            | skipped r ↦ refl
            | unreachable e ↦ refl
            | answer c ↦ refl
            | broken s ↦ refl
            | endless ↦ refl
          ]
