-- ===== src/Llm/Gateway/Fallback.antt =====
-- What a failed request reports: `AllProvidersFailedError` of src/aidss/llm/gateway.py.
use mathlib.Core.Path.{subst}
use stock_recommendation_be.Base.{
  ℕ, ◌+◌, ◌≡◌, refl, sym, ap, String, true, false, Option, none, some, List, [], ◌∷◌, ◌++◌, All,
  if◌then◌else◌, is_some,
}
use stock_recommendation_be.Base.Dict.{Dict, get, put, get-put, put_keeps}
use stock_recommendation_be.Llm.Cost.{over_budget}
use stock_recommendation_be.Llm.CircuitBreaker.{ensure_closed}
use stock_recommendation_be.Llm.RateLimiter.{
  Acquired, granted, index_error, out_of_fuel, acquire_slot,
}
use stock_recommendation_be.Llm.Retry.{
  CallEnd, value, raised, propagated, assertion_failed, call_with_retry,
}
use stock_recommendation_be.Llm.Router.{
  ChatCompletion, ProviderBinding, Routed, providers, no_eligible, chain,
}
use stock_recommendation_be.Llm.Gateway.{
  LlmRequest, LlmGateway, breaker, set_breaker, limiter, call_for, Tried, skipped, unreachable,
  answer, broken, endless, retried, after_call, settle_call, contact, take_slot, pass_breaker,
  try_provider, Failure, circuit_open, provider_failed, Completed, response, budget_exceeded,
  no_provider, all_failed, passed_on, never, serve, serve_routed, complete,
}
use stock_recommendation_be.Llm.Gateway.Loop.{after_try, serve_cons}

-- A failure is reported for the provider.
abbrev pub IsReported : Dict Failure → ProviderBinding → Type 0
IsReported failures b = is_some (get b.name failures) ≡ true

put-IsReported :
    (b : ProviderBinding) (f : Failure) (before : Dict Failure) → IsReported (put b.name f before) b
put-IsReported b f before = ap is_some (get-put b.name f before)

-- Why a provider did not answer at its turn: its breaker was open for so much longer, or the call
-- with its retries ended in this error.
abbrev pub IsCause : (ℕ → ℕ) → LlmRequest → ProviderBinding → LlmGateway → Failure → Type 0
IsCause samples request b g (circuit_open r) = (ensure_closed g.now (breaker b.name g)).1 ≡ some r
IsCause samples request b g (provider_failed e) =
    ((ensure_closed g.now (breaker b.name g)).1 ≡ none)
    × ((call_with_retry g.retry_policy
          (λ n. b.provider.chat_completion (call_for request b) (g.calls_made + n)) samples).result
        ≡ raised e)

module _ (samples : ℕ → ℕ) (took : ProviderBinding → ℕ → ℕ) (request : LlmRequest) where
  -- Each of these providers in turn did not answer, for the cause that the failures end up with, on
  -- the gateway as the one before it left it.
  abbrev pub AllDidNotAnswer :
      List ProviderBinding → LlmGateway → Dict Failure → Dict Failure → Type 0
  AllDidNotAnswer [] g before failures = failures ≡ before
  AllDidNotAnswer (b ∷ bs) g before failures =
      (f : Failure) × IsCause samples request b g f
      × AllDidNotAnswer bs (try_provider samples took request b g).1 (put b.name f before) failures

  -- What the end of one turn says.
  abbrev Tells : ProviderBinding → LlmGateway → Tried → Type 0
  Tells b g (skipped r) = IsCause samples request b g (circuit_open r)
  Tells b g (unreachable e) = IsCause samples request b g (provider_failed e)
  Tells b g _ = Unit

  settle_call-Tells :
      (b : ProviderBinding) (end : CallEnd ChatCompletion) (g g' : LlmGateway)
      → (ensure_closed g.now (breaker b.name g)).1 ≡ none
      → (retried samples took request b g).result ≡ end
      → Tells b g (settle_call samples took request b end g').0
  unfolding settle_call
  settle_call-Tells b (value c) g g' free e = tt
  settle_call-Tells b (raised error) g g' free e = (free, e)
  settle_call-Tells b (propagated s) g g' free e = tt
  settle_call-Tells b assertion_failed g g' free e = tt

  take_slot-Tells :
      (b : ProviderBinding) (a : Acquired) (g g' : LlmGateway)
      → (ensure_closed g.now (breaker b.name g)).1 ≡ none
      → g'.retry_policy ≡ g.retry_policy
      → g'.calls_made ≡ g.calls_made
      → Tells b g (take_slot samples took request b a g').0
  unfolding take_slot contact
  take_slot-Tells b (granted s) g g' free policy calls =
      let g'' = record g' { now = s.at; limiters = put b.name s.limiter g'.limiters } in
      settle_call-Tells b (retried samples took request b g'').result g
        (after_call samples took request b g'') free (rw (policy, calls) refl)
  take_slot-Tells b index_error g g' free policy calls = tt
  take_slot-Tells b out_of_fuel g g' free policy calls = tt

  pass_breaker-Tells :
      (b : ProviderBinding) (o : Option ℕ) (g g' : LlmGateway)
      → (ensure_closed g.now (breaker b.name g)).1 ≡ o
      → g'.retry_policy ≡ g.retry_policy
      → g'.calls_made ≡ g.calls_made
      → Tells b g (pass_breaker samples took request b o g').0
  unfolding pass_breaker
  pass_breaker-Tells b (some r) g g' e policy calls = e
  pass_breaker-Tells b none g g' e policy calls =
      take_slot-Tells b (acquire_slot g'.now (limiter b g')) g g' e policy calls

  try_provider-Tells :
      (b : ProviderBinding) (g : LlmGateway) → Tells b g (try_provider samples took request b g).0
  unfolding try_provider set_breaker
  try_provider-Tells b g =
      let checked = ensure_closed g.now (breaker b.name g) in
      pass_breaker-Tells b checked.1 g (set_breaker b.name checked.0 g) refl refl refl

  -- Where the rest of the loop ends with everything failed.
  abbrev Explains : List ProviderBinding → LlmGateway → Dict Failure → Completed → Type 0
  Explains bs g before (all_failed failures) = AllDidNotAnswer bs g before failures
  Explains bs g before _ = Unit

  Explains-more :
      (b : ProviderBinding) (bs : List ProviderBinding) (g : LlmGateway) (f : Failure)
      (before : Dict Failure) (c : Completed)
      → IsCause samples request b g f
      → Explains bs (try_provider samples took request b g).1 (put b.name f before) c
      → Explains (b ∷ bs) g before c
  Explains-more b bs g f before (all_failed failures) cause e = (f, cause, e)
  Explains-more b bs g f before (response r) cause e = tt
  Explains-more b bs g f before budget_exceeded cause e = tt
  Explains-more b bs g f before (no_provider r) cause e = tt
  Explains-more b bs g f before (passed_on s) cause e = tt
  Explains-more b bs g f before never cause e = tt

  after_try-Explains :
      (b : ProviderBinding) (bs : List ProviderBinding) (g : LlmGateway)
      → ((failures : Dict Failure) (attempted : List String)
          → let g' = (try_provider samples took request b g).1 in
            Explains bs g' failures (serve samples took request bs failures attempted g').0)
      → (failures : Dict Failure) (attempted : List String) (t : Tried) → Tells b g t
      → Explains
          (b ∷ bs)
          g
          failures
          (after_try samples took request b bs failures attempted t
            (try_provider samples took request b g).1).0
  after_try-Explains b bs g ih failures attempted (skipped r) cause =
      Explains-more b bs g (circuit_open r) failures _ cause
        (ih (put b.name (circuit_open r) failures) attempted)
  after_try-Explains b bs g ih failures attempted (unreachable e) cause =
      Explains-more b bs g (provider_failed e) failures _ cause
        (ih (put b.name (provider_failed e) failures) (attempted ++ b.name ∷ []))
  after_try-Explains b bs g ih failures attempted (answer c) cause = tt
  after_try-Explains b bs g ih failures attempted (broken s) cause = tt
  after_try-Explains b bs g ih failures attempted endless cause = tt

  serve-Explains :
      (bs : List ProviderBinding) (failures : Dict Failure) (attempted : List String)
      (g : LlmGateway)
      → Explains bs g failures (serve samples took request bs failures attempted g).0
  unfolding serve
  serve-Explains [] failures attempted g = refl
  serve-Explains (b ∷ bs) failures attempted g =
      subst (λ r. Explains (b ∷ bs) g failures r.0)
        (sym (serve_cons samples took request b bs failures attempted g))
        (after_try-Explains b bs g
          (λ known names. serve-Explains bs known names (try_provider samples took request b g).1)
          failures attempted (try_provider samples took request b g).0 (try_provider-Tells b g))

  -- Every one of these providers has its failure reported, and those known before are kept.
  reported :
      (bs : List ProviderBinding) (g : LlmGateway) (before failures : Dict Failure)
      → AllDidNotAnswer bs g before failures
      → All (IsReported failures) bs
        × ((b : ProviderBinding) → IsReported before b → IsReported failures b)
  reported [] g before failures h = (tt, λ b known. rw h known)
  reported (b ∷ bs) g before failures (f, cause, h) =
      let (rest, kept) =
        reported bs (try_provider samples took request b g).1 (put b.name f before) failures h in
      (
        (kept b (put-IsReported b f before), rest),
        λ x known. kept x (put_keeps x.name b.name f before known),
      )

  -- The chain of a result in which everything failed.
  abbrev AllFailed : Routed → LlmGateway → Completed → Type 0
  AllFailed c g (all_failed failures) =
      (ps : List ProviderBinding) × (c ≡ providers ps) × AllDidNotAnswer ps g [] failures
  AllFailed c g _ = Unit

  served-AllFailed :
      (ps : List ProviderBinding) (g : LlmGateway) (c : Completed)
      → Explains ps g [] c
      → AllFailed (providers ps) g c
  served-AllFailed ps g (all_failed failures) e = (ps, refl, e)
  served-AllFailed ps g (response r) e = tt
  served-AllFailed ps g budget_exceeded e = tt
  served-AllFailed ps g (no_provider r) e = tt
  served-AllFailed ps g (passed_on s) e = tt
  served-AllFailed ps g never e = tt

  serve_routed-AllFailed :
      (c : Routed) (g : LlmGateway) → AllFailed c g (serve_routed samples took request c g).0
  unfolding serve_routed
  serve_routed-AllFailed (no_eligible r) g = tt
  serve_routed-AllFailed (providers ps) g =
      served-AllFailed ps g (serve samples took request ps [] [] g).0 (serve-Explains ps [] [] g)

  complete-AllFailed :
      (g : LlmGateway)
      → AllFailed
          (chain request.complexity request.sensitivity g.bindings)
          g
          (complete samples took request g).0
  unfolding complete
  complete-AllFailed g =
      let c = chain request.complexity request.sensitivity g.bindings in
      elim (over_budget g.cost_tracker)
        as (λ o.
          AllFailed c g
            (if o then (budget_exceeded, g) else serve_routed samples took request c g).0) [
              | true ↦ tt
              | false ↦ serve_routed-AllFailed c g
            ]

  -- A request fails with AllProvidersFailedError only when every provider of its fallback chain, in
  -- turn, either was skipped because its breaker was open or was called and its call with the retries
  -- ended in an error of the provider; and the error reports a failure for each of them.
  pub all_failed_reports :
      (g : LlmGateway) (failures : Dict Failure)
      → (complete samples took request g).0 ≡ all_failed failures
      → (ps : List ProviderBinding) × (chain request.complexity request.sensitivity g.bindings
          ≡ providers ps)
        × AllDidNotAnswer ps g [] failures
        × All (IsReported failures) ps
  all_failed_reports g failures e =
      let (ps, routed, h) =
        subst (AllFailed (chain request.complexity request.sensitivity g.bindings) g) e
          (complete-AllFailed g) in
      (ps, routed, h, (reported ps g [] failures h).0)
