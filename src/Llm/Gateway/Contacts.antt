-- ===== src/Llm/Gateway/Contacts.antt =====
-- Which providers a request reaches: `LLMGateway.complete` of src/aidss/llm/gateway.py.
use mathlib.Core.Path.{subst}
use stock_recommendation_be.Base.{
  ℕ, ◌≡◌, refl, sym, ◌∙◌, ap, String, true, false, List, [], ◌∷◌, ◌++◌, append-nil, append_assoc,
  map, All, if◌then◌else◌,
}
use stock_recommendation_be.Base.Dict.{Dict, put}
use stock_recommendation_be.Llm.Cost.{over_budget}
use stock_recommendation_be.Llm.Router.{
  ChatCompletion, ProviderBinding, Routed, providers, no_eligible, chain, sensitive, can_serve,
}
use stock_recommendation_be.Llm.Router.Chain.{chain_eligible, sensitive_hosted}
use stock_recommendation_be.Llm.Gateway.{
  LlmRequest, LlmResponse, LlmGateway, usage_of, Tried, skipped, unreachable, answer, broken,
  endless, try_provider, Failure, circuit_open, provider_failed, Completed, response,
  budget_exceeded, no_provider, all_failed, passed_on, never, serve, serve_routed, complete,
}
use stock_recommendation_be.Llm.Gateway.Loop.{
  Reached, Reached-All, try_provider-Reaches, after_try, serve_cons,
}

-- How the list of those reached relates to the result of the request.
abbrev Accounts : List String → List ProviderBinding → Completed → Type 0
Accounts attempted new (response r) =
    (failed : List ProviderBinding) × (b : ProviderBinding) × (new ≡ failed ++ b ∷ [])
    × (r.fallbacks_used ≡ attempted ++ map (λ b. b.name) failed)
    × (r.usage.provider ≡ b.name)
Accounts attempted new _ = Unit

usage_names_provider : (b : ProviderBinding) (c : ChatCompletion) → (usage_of b c).provider ≡ b.name
unfolding usage_of
usage_names_provider b c = refl

module _ (samples : ℕ → ℕ) (took : ProviderBinding → ℕ → ℕ) (request : LlmRequest) where
  -- What a run of the loop adds to those contacted.
  abbrev Contacts :
      (ProviderBinding → Type 0)
      → List String
      → List ProviderBinding
      → Completed × LlmGateway
      → Type 0
  Contacts P attempted before r =
      (new : List ProviderBinding) × (r.1.contacted ≡ before ++ new)
      × All P new
      × Accounts attempted new r.0

  none_new :
      (P : ProviderBinding → Type 0) (attempted : List String) (before : List ProviderBinding)
      (r : Completed × LlmGateway) (l : List ProviderBinding)
      → r.1.contacted ≡ before ++ l
      → All P l
      → Accounts attempted l r.0
      → Contacts P attempted before r
  none_new P attempted before r l h p a = (l, h, p, a)

  Accounts-later :
      (attempted : List String) (b : ProviderBinding) (new : List ProviderBinding) (c : Completed)
      → Accounts (attempted ++ b.name ∷ []) new c
      → Accounts attempted (b ∷ new) c
  Accounts-later attempted b new (response r) (failed, by, e, f, u) = (
    b ∷ failed,
    by,
    ap (λ l. b ∷ l) e,
    f ∙ append_assoc attempted (b.name ∷ []) (map (λ b. b.name) failed),
    u,
  )
  Accounts-later attempted b new budget_exceeded a = tt
  Accounts-later attempted b new (no_provider r) a = tt
  Accounts-later attempted b new (all_failed f) a = tt
  Accounts-later attempted b new (passed_on s) a = tt
  Accounts-later attempted b new never a = tt

  after_try-Contacts :
      (P : ProviderBinding → Type 0) (b : ProviderBinding) (bs : List ProviderBinding)
      → P b
      → ((failures : Dict Failure) (attempted : List String) (g : LlmGateway)
          → Contacts P attempted g.contacted (serve samples took request bs failures attempted g))
      → (failures : Dict Failure) (attempted : List String) (t : Tried) (g : LlmGateway)
        (before l : List ProviderBinding)
      → g.contacted ≡ before ++ l
      → Reached t b l
      → Contacts P attempted before (after_try samples took request b bs failures attempted t g)
  after_try-Contacts P b bs p ih failures attempted (skipped r) g before l h e =
      let i = ih (put b.name (circuit_open r) failures) attempted g in
      (
        i.0,
        i.1 ∙ ap (λ x. x ++ i.0) (h ∙ ap (λ x. before ++ x) e ∙ sym (append-nil before)),
        i.2,
        i.3,
      )
  after_try-Contacts P b bs p ih failures attempted (unreachable x) g before l h e =
      let i = ih (put b.name (provider_failed x) failures) (attempted ++ b.name ∷ []) g in
      (
        b ∷ i.0,
        i.1 ∙ ap (λ x. x ++ i.0) (h ∙ ap (λ x. before ++ x) e) ∙ append_assoc before (b ∷ []) i.0,
        (p, i.2),
        Accounts-later attempted b i.0
            (serve samples took request bs (put b.name (provider_failed x) failures)
              (attempted ++ b.name ∷ []) g).0
            i.3,
      )
  after_try-Contacts P b bs p ih failures attempted (answer c) g before l h e = (
    l,
    h,
    Reached-All P (answer c) b l p e,
    ([], b, e, append-nil attempted, usage_names_provider b c),
  )
  after_try-Contacts P b bs p ih failures attempted (broken s) g before l h e =
      (l, h, Reached-All P (broken s) b l p e, tt)
  after_try-Contacts P b bs p ih failures attempted endless g before l h e =
      (l, h, Reached-All P endless b l p e, tt)

  serve-Contacts :
      (P : ProviderBinding → Type 0) (bs : List ProviderBinding)
      → All P bs
      → (failures : Dict Failure) (attempted : List String) (g : LlmGateway)
      → Contacts P attempted g.contacted (serve samples took request bs failures attempted g)
  unfolding serve
  serve-Contacts P [] a failures attempted g = ([], append-nil g.contacted, tt, tt)
  serve-Contacts P (b ∷ bs) a failures attempted g =
      let reach = try_provider-Reaches samples took request b g in
      let t = try_provider samples took request b g in
      subst (Contacts P attempted g.contacted)
        (sym (serve_cons samples took request b bs failures attempted g))
        (after_try-Contacts P b bs a.0 (serve-Contacts P bs a.1) failures attempted t.0 t.1
          g.contacted reach.0 reach.1 reach.2)

  serve_routed-Contacts :
      (P : ProviderBinding → Type 0) (c : Routed) (g : LlmGateway)
      → ((ps : List ProviderBinding) → c ≡ providers ps → All P ps)
      → Contacts P [] g.contacted (serve_routed samples took request c g)
  unfolding serve_routed
  serve_routed-Contacts P (no_eligible r) g a = ([], append-nil g.contacted, tt, tt)
  serve_routed-Contacts P (providers ps) g a = serve-Contacts P ps (a ps refl) [] [] g

  complete-Contacts :
      (P : ProviderBinding → Type 0) (g : LlmGateway)
      → ((ps : List ProviderBinding)
          → chain request.complexity request.sensitivity g.bindings ≡ providers ps
          → All P ps)
      → Contacts P [] g.contacted (complete samples took request g)
  unfolding complete
  complete-Contacts P g a =
      elim (over_budget g.cost_tracker)
        as (λ o. Contacts P [] g.contacted (
          if o
          then (budget_exceeded, g)
          else serve_routed samples took request
              (chain request.complexity request.sensitivity g.bindings) g)) [
                | true ↦ ([], append-nil g.contacted, tt, tt)
                | false ↦
                    serve_routed-Contacts P
                      (chain request.complexity request.sensitivity g.bindings) g a
              ]

  -- A request that carries personal data reaches no provider but self-hosted ones, however many
  -- providers of the fallback chain fail.
  pub sensitive_stays_home :
      (g : LlmGateway)
      → request.sensitivity ≡ sensitive
      → (new : List ProviderBinding) × ((complete samples took request g).1.contacted
          ≡ g.contacted ++ new)
        × All (λ b. b.self_hosted ≡ true) new
  sensitive_stays_home g s =
      let c =
        complete-Contacts (λ b. b.self_hosted ≡ true) g
          (λ ps e. sensitive_hosted request.complexity ps (
            subst (λ v. All (λ b. can_serve request.complexity v b ≡ true) ps) s
              (chain_eligible request.complexity request.sensitivity g.bindings ps e))) in
      (c.0, c.1, c.2)

  answered_by :
      (c : Completed) (r : LlmResponse) (new : List ProviderBinding)
      → c ≡ response r
      → Accounts [] new c
      → Accounts [] new (response r)
  answered_by c r new e a = subst (Accounts [] new) e a

  -- Where a request is answered, the providers that it contacted are those that the response names as
  -- fallbacks, in that order, and then the one that answered, which its usage names; all of them can
  -- serve the request.
  pub response_accounts :
      (g : LlmGateway) (r : LlmResponse)
      → (complete samples took request g).0 ≡ response r
      → (failed : List ProviderBinding) × (b : ProviderBinding) × ((complete samples took request
            g).1.contacted
          ≡ g.contacted ++ (failed ++ b ∷ []))
        × (r.fallbacks_used ≡ map (λ b. b.name) failed)
        × (r.usage.provider ≡ b.name)
        × All (λ b. can_serve request.complexity request.sensitivity b ≡ true) (failed ++ b ∷ [])
  response_accounts g r e =
      let can : ProviderBinding → Type 0 =
        λ b. can_serve request.complexity request.sensitivity b ≡ true in
      let c =
        complete-Contacts can g
          (chain_eligible request.complexity request.sensitivity g.bindings) in
      let a = answered_by (complete samples took request g).0 r c.0 e c.3 in
      (a.0, a.1, c.1 ∙ ap (λ l. g.contacted ++ l) a.2, a.3, a.4, subst (All can) a.2 c.2)
