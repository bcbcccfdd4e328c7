-- ===== src/Llm/Gateway/Returns.antt =====
-- That a request ends, and that it fails only when the whole chain did: `LLMGateway.complete` of
-- src/aidss/llm/gateway.py.
use mathlib.Core.Path.{subst}
use stock_recommendation_be.Base.{
  ℕ, ◌+◌, ◌≤◌, ◌<◌, ◌≡◌, ◌≢◌, refl, sym, inl, inr, String, true, false, Option, none, some, List,
  [], ◌∷◌, ◌++◌, All, arith, Bool-cases, if◌then◌else◌, get_or, str_eq,
}
use stock_recommendation_be.Base.Dict.{Dict, get, put}
use stock_recommendation_be.Llm.Retry.{CallEnd, value, raised, propagated, assertion_failed}
use stock_recommendation_be.Llm.RateLimiter.{RateLimiter, Grant, granted}
use stock_recommendation_be.Llm.RateLimiter.Window.{IsValid, IsValid-later}
use stock_recommendation_be.Llm.RateLimiter.Acquire.{IsGranted, acquire_slot-IsGranted}
use stock_recommendation_be.Llm.CircuitBreaker.{ensure_closed}
use stock_recommendation_be.Llm.Cost.{over_budget}
use stock_recommendation_be.Llm.Router.{
  ChatCompletion, ProviderBinding, Routed, providers, no_eligible, chain,
}
use stock_recommendation_be.Llm.Router.Chain.{chain-All}
use stock_recommendation_be.Llm.Gateway.{
  LlmRequest, LlmGateway, breaker, set_breaker, limiter, fresh_limiter, Tried, skipped, unreachable,
  answer, broken, endless, retried, after_call, settle_call, contact, take_slot, pass_breaker,
  try_provider, Failure, circuit_open, provider_failed, Completed, budget_exceeded, never, serve,
  serve_routed, complete,
}
use stock_recommendation_be.Llm.Gateway.Loop.{after_try, serve_cons}

-- A limiter that can grant, at the instant.
abbrev pub CanGrant : ℕ → RateLimiter → Type 0
CanGrant now r = (0 < r.requests_per_minute) × IsValid now r

abbrev pub AllCanGrant : ℕ → Dict RateLimiter → Type 0
AllCanGrant now d = All (λ e. CanGrant now e.1) d

abbrev pub HasSlots : ProviderBinding → Type 0
HasSlots b = 0 < b.requests_per_minute

AllCanGrant-later :
    (now later : ℕ) (d : Dict RateLimiter) → now ≤ later → AllCanGrant now d → AllCanGrant later d
AllCanGrant-later now later [] le a = tt
AllCanGrant-later now later (e ∷ d) le a =
    ((a.0.0, IsValid-later now later e.1 le a.0.1), AllCanGrant-later now later d le a.1)

get-CanGrant :
    (now : ℕ) (k : String) (d : Dict RateLimiter) (r : RateLimiter)
    → AllCanGrant now d
    → CanGrant now r
    → CanGrant now (get_or r (get k d))
unfolding get
get-CanGrant now k [] r a c = c
get-CanGrant now k (e ∷ d) r a c = elim (Bool-cases (str_eq e.0 k)) [
  | inl here ↦ rw here a.0
  | inr later ↦ rw later (get-CanGrant now k d r a.1 c)
]

put-AllCanGrant :
    (now : ℕ) (k : String) (d : Dict RateLimiter) (r : RateLimiter)
    → AllCanGrant now d
    → CanGrant now r
    → AllCanGrant now (put k r d)
unfolding put
put-AllCanGrant now k [] r a c = (c, tt)
put-AllCanGrant now k (e ∷ d) r a c = elim (Bool-cases (str_eq e.0 k)) [
  | inl here ↦ rw here (c, a.1)
  | inr later ↦ rw later (a.0, put-AllCanGrant now k d r a.1 c)
]

abbrev Ends : Tried → Type 0
Ends endless = ⊥
Ends _ = Unit

abbrev GoesOn : Tried × LlmGateway → Type 0
GoesOn r = Ends r.0 × AllCanGrant r.1.now r.1.limiters

module _ (samples : ℕ → ℕ) (took : ProviderBinding → ℕ → ℕ) (request : LlmRequest) where
  settle_call-GoesOn :
      (b : ProviderBinding) (e : CallEnd ChatCompletion) (g : LlmGateway)
      → AllCanGrant g.now g.limiters
      → GoesOn (settle_call samples took request b e g)
  unfolding settle_call set_breaker
  settle_call-GoesOn b (value c) g a = (tt, a)
  settle_call-GoesOn b (raised e) g a = (tt, a)
  settle_call-GoesOn b (propagated s) g a = (tt, a)
  settle_call-GoesOn b assertion_failed g a = (tt, a)

  contact-GoesOn :
      (b : ProviderBinding) (g : LlmGateway)
      → AllCanGrant g.now g.limiters
      → GoesOn (contact samples took request b g)
  unfolding contact
  contact-GoesOn b g a =
      settle_call-GoesOn b (retried samples took request b g).result
        (after_call samples took request b g)
        (AllCanGrant-later g.now (g.now + took b g.now) g.limiters (omega arith) a)

  granted-GoesOn :
      (b : ProviderBinding) (g : LlmGateway) (r : RateLimiter) (s : Grant)
      → AllCanGrant g.now g.limiters
      → 0 < r.requests_per_minute
      → IsGranted g.now r s
      → GoesOn (take_slot samples took request b (granted s) g)
  unfolding take_slot
  granted-GoesOn b g r s a some_slots i =
      contact-GoesOn b (record g { now = s.at; limiters = put b.name s.limiter g.limiters })
        (put-AllCanGrant s.at b.name g.limiters s.limiter
          (AllCanGrant-later g.now s.at g.limiters (omega (arith, i.0)) a)
          (omega (arith, i.3), i.2))

  pass_breaker-GoesOn :
      (b : ProviderBinding) (o : Option ℕ) (g : LlmGateway)
      → HasSlots b
      → AllCanGrant g.now g.limiters
      → GoesOn (pass_breaker samples took request b o g)
  unfolding pass_breaker limiter
  pass_breaker-GoesOn b (some r) g s a = (tt, a)
  pass_breaker-GoesOn b none g s a =
      let c =
        get-CanGrant g.now b.name g.limiters (fresh_limiter b) a
          (s, record { limited = omega arith; past = tt }) in
      let (grant, e, i) =
        acquire_slot-IsGranted g.now (get_or (fresh_limiter b) (get b.name g.limiters)) c.1 c.0 in
      subst (λ q. GoesOn (take_slot samples took request b q g)) (sym e)
        (granted-GoesOn b g (get_or (fresh_limiter b) (get b.name g.limiters)) grant a c.0 i)

  try_provider-GoesOn :
      (b : ProviderBinding) (g : LlmGateway)
      → HasSlots b
      → AllCanGrant g.now g.limiters
      → GoesOn (try_provider samples took request b g)
  unfolding try_provider set_breaker
  try_provider-GoesOn b g s a =
      let checked = ensure_closed g.now (breaker b.name g) in
      pass_breaker-GoesOn b checked.1 (set_breaker b.name checked.0 g) s a

  -- The request has an outcome, and the limiters can grant at the next one.
  abbrev pub HasOutcome : Completed × LlmGateway → Type 0
  HasOutcome r = (r.0 ≢ never) × AllCanGrant r.1.now r.1.limiters

  after_try-HasOutcome :
      (b : ProviderBinding) (bs : List ProviderBinding)
      → ((failures : Dict Failure) (attempted : List String) (g : LlmGateway)
          → AllCanGrant g.now g.limiters
          → HasOutcome (serve samples took request bs failures attempted g))
      → (failures : Dict Failure) (attempted : List String) (t : Tried) (g : LlmGateway)
      → GoesOn (t, g)
      → HasOutcome (after_try samples took request b bs failures attempted t g)
  after_try-HasOutcome b bs ih failures attempted (skipped r) g h =
      ih (put b.name (circuit_open r) failures) attempted g h.1
  after_try-HasOutcome b bs ih failures attempted (unreachable e) g h =
      ih (put b.name (provider_failed e) failures) (attempted ++ b.name ∷ []) g h.1
  after_try-HasOutcome b bs ih failures attempted (answer c) g h = (λ e. cc, h.1)
  after_try-HasOutcome b bs ih failures attempted (broken s) g h = (λ e. cc, h.1)
  after_try-HasOutcome b bs ih failures attempted endless g h = absurd h.0

  serve-HasOutcome :
      (bs : List ProviderBinding)
      → All HasSlots bs
      → (failures : Dict Failure) (attempted : List String) (g : LlmGateway)
      → AllCanGrant g.now g.limiters
      → HasOutcome (serve samples took request bs failures attempted g)
  unfolding serve
  serve-HasOutcome [] s failures attempted g a = (λ e. cc, a)
  serve-HasOutcome (b ∷ bs) s failures attempted g a =
      let t = try_provider samples took request b g in
      subst HasOutcome (sym (serve_cons samples took request b bs failures attempted g)) (
        after_try-HasOutcome b bs (serve-HasOutcome bs s.1) failures attempted t.0 t.1
          (try_provider-GoesOn b g s.0 a))

  serve_routed-HasOutcome :
      (c : Routed) (g : LlmGateway)
      → ((ps : List ProviderBinding) → c ≡ providers ps → All HasSlots ps)
      → AllCanGrant g.now g.limiters
      → HasOutcome (serve_routed samples took request c g)
  unfolding serve_routed
  serve_routed-HasOutcome (no_eligible r) g s a = (λ e. cc, a)
  serve_routed-HasOutcome (providers ps) g s a = serve-HasOutcome ps (s ps refl) [] [] g a

  -- Where every configured provider and every limiter allows at least one request per minute, a
  -- request ends: no loop of a limiter runs on, and this holds again for the next request.
  pub complete-HasOutcome :
      (g : LlmGateway)
      → All HasSlots g.bindings
      → AllCanGrant g.now g.limiters
      → HasOutcome (complete samples took request g)
  unfolding complete
  complete-HasOutcome g s a =
      elim (over_budget g.cost_tracker)
        as (λ o. HasOutcome (
          if o
          then (budget_exceeded, g)
          else serve_routed samples took request
              (chain request.complexity request.sensitivity g.bindings) g)) [
                | true ↦ (λ e. cc, a)
                | false ↦
                    serve_routed-HasOutcome
                      (chain request.complexity request.sensitivity g.bindings) g
                      (λ ps e.
                        chain-All request.complexity request.sensitivity HasSlots g.bindings ps s e)
                      a
              ]
