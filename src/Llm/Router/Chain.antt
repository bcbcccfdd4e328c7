-- ===== src/Llm/Router/Chain.antt =====
-- What the chain of a request is, and why there is none: `ModelRouter.chain` of
-- src/aidss/llm/router.py.
use mathlib.Core.List.{Permᴰ}
use mathlib.Core.Path.{subst}
use stock_recommendation_be.Base.{
  ℕ, ◌≡◌, refl, sym, ap, ◌∙◌, inl, inr, Bool, true, false, ◌&&◌, List, [], ◌∷◌, filter, any, map,
  All, All-filter, arith, ◌==◌, Bool-cases,
}
use stock_recommendation_be.Base.Sorting.{
  sort_by, IsSortedBy, sort_by-IsSortedBy, sort_by-All, sort_by-Permᴰ, filter-sort_by,
}
use stock_recommendation_be.Llm.Router.{
  TaskComplexity, Sensitivity, public, sensitive, ProviderBinding, serves_complexity, is_sensitive,
  can_serve, Reason, none_configured, none_handles, none_self_hosted, why_nothing_matched, Routed,
  providers, no_eligible, chain,
}

filter_passes {ℓ} : {A : Type ℓ} (p : A → Bool) (xs : List A) → All (λ x. p x ≡ true) (filter p xs)
filter_passes p [] = tt
filter_passes p (x ∷ xs) = elim (Bool-cases (p x)) [
  | inl t ↦ rw t (t, filter_passes p xs)
  | inr f ↦ rw f (filter_passes p xs)
]

abbrev is_cons {ℓ} : {A : Type ℓ} → List A → Bool
is_cons [] = false
is_cons (_ ∷ _) = true

any-filter {ℓ} : {A : Type ℓ} (p : A → Bool) (xs : List A) → any p xs ≡ is_cons (filter p xs)
any-filter p [] = refl
any-filter p (x ∷ xs) = ground (arith, any-filter p xs)

module _ (c : TaskComplexity) (s : Sensitivity) where
  -- The chain of the bindings that can serve.
  abbrev chain_of : List ProviderBinding → List ProviderBinding → Routed
  chain_of bindings [] = no_eligible (why_nothing_matched c s bindings)
  chain_of bindings (b ∷ bs) = providers (sort_by (λ b. b.priority) (b ∷ bs))

  chain_unfold :
      (bindings : List ProviderBinding)
      → chain c s bindings ≡ chain_of bindings (filter (can_serve c s) bindings)
  unfolding chain
  chain_unfold bindings =
      elim (filter (can_serve c s) bindings)
        as (λ l.
          (elim l as (λ _. Routed) [
            | [] ↦ no_eligible (why_nothing_matched c s bindings)
            | b ∷ bs ↦ providers (sort_by (λ b. b.priority) (b ∷ bs))
          ])
          ≡ chain_of bindings l) [ [] ↦ refl | b ∷ bs ↦ refl ]

  chain_of_sorted :
      (bindings l ps : List ProviderBinding)
      → chain_of bindings l ≡ providers ps
      → ps ≡ sort_by (λ b. b.priority) l
  chain_of_sorted bindings [] ps e = cc
  chain_of_sorted bindings (b ∷ bs) ps e = cc

  chain_of_empty :
      (bindings l : List ProviderBinding) (r : Reason)
      → chain_of bindings l ≡ no_eligible r
      → (l ≡ []) × (r ≡ why_nothing_matched c s bindings)
  chain_of_empty bindings [] r e = (refl, cc)
  chain_of_empty bindings (b ∷ bs) r e = cc

  pub chain_sorted :
      (bindings ps : List ProviderBinding)
      → chain c s bindings ≡ providers ps
      → ps ≡ sort_by (λ b. b.priority) (filter (can_serve c s) bindings)
  chain_sorted bindings ps e =
      chain_of_sorted bindings (filter (can_serve c s) bindings) ps
        (sym (chain_unfold bindings) ∙ e)

  -- Every provider of a chain can serve the request.
  pub chain_eligible :
      (bindings ps : List ProviderBinding)
      → chain c s bindings ≡ providers ps
      → All (λ b. can_serve c s b ≡ true) ps
  chain_eligible bindings ps e = rw (chain_sorted bindings ps e) (
      sort_by-All (λ b. b.priority) (λ b. can_serve c s b ≡ true) (filter (can_serve c s) bindings)
        (filter_passes (can_serve c s) bindings))

  -- What holds of every configured provider holds of every one in a chain.
  pub chain-All :
      (P : ProviderBinding → Type 0) (bindings ps : List ProviderBinding)
      → All P bindings
      → chain c s bindings ≡ providers ps
      → All P ps
  chain-All P bindings ps a e = rw (chain_sorted bindings ps e) (
      sort_by-All (λ b. b.priority) P (filter (can_serve c s) bindings)
        (All-filter P (can_serve c s) bindings a))

  -- The chain of a request is the configured bindings that can serve it, each as often as it is
  -- configured, by ascending priority, and those of one priority in the order of the configuration.
  pub chain_lem :
      (bindings ps : List ProviderBinding) (k : ℕ)
      → chain c s bindings ≡ providers ps
      → IsSortedBy (λ b. b.priority) ps
        × Permᴰ ps (filter (can_serve c s) bindings)
        × (filter (λ b. b.priority == k) ps
            ≡ filter (λ b. b.priority == k) (filter (can_serve c s) bindings))
  chain_lem bindings ps k e =
      let l = filter (can_serve c s) bindings in
      rw (chain_sorted bindings ps e) (
        sort_by-IsSortedBy (λ b. b.priority) l,
        sort_by-Permᴰ (λ b. b.priority) l,
        filter-sort_by (λ b. b.priority) k l,
      )

-- What a reason claims of the configuration.
abbrev pub IsCause : TaskComplexity → Sensitivity → List ProviderBinding → Reason → Type 0
IsCause c s bindings none_configured = bindings ≡ []
IsCause c s bindings (none_handles c' names) =
    (c' ≡ c) × (any (serves_complexity c) bindings ≡ false) × (names ≡ map (λ b. b.name) bindings)
IsCause c s bindings (none_self_hosted s' names) =
    (s ≡ sensitive)
    × (any (serves_complexity c) bindings ≡ true)
    × (any (λ b. serves_complexity c b && b.self_hosted) bindings ≡ false)
    × (names ≡ map (λ b. b.name) (filter (serves_complexity c) bindings))

-- Where nothing can serve and something has the complexity, the request is sensitive and no such
-- provider is self-hosted.
nothing_self_hosted :
    (c : TaskComplexity) (s : Sensitivity) (bs : List ProviderBinding)
    → any (can_serve c s) bs ≡ false
    → any (serves_complexity c) bs ≡ true
    → (s ≡ sensitive) × (any (λ b. serves_complexity c b && b.self_hosted) bs ≡ false)
unfolding can_serve is_sensitive
nothing_self_hosted c public [] n h = ground arith
nothing_self_hosted c public (b ∷ bs) n h = ground (arith, nothing_self_hosted c public bs)
nothing_self_hosted c sensitive bs n h = (refl, none_hosted bs n)
  where
    none_hosted :
        (bs : List ProviderBinding)
        → any (can_serve c sensitive) bs ≡ false
        → any (λ b. serves_complexity c b && b.self_hosted) bs ≡ false
    none_hosted [] n = refl
    none_hosted (b ∷ bs) n = ground (arith, none_hosted bs)

module _ (c : TaskComplexity) (s : Sensitivity) (bindings : List ProviderBinding) where
  -- The reason, once something is configured, from the bindings that handle the complexity.
  abbrev why_of : List ProviderBinding → Reason
  why_of [] = none_handles c (map (λ b. b.name) bindings)
  why_of (x ∷ xs) = none_self_hosted s (map (λ b. b.name) (x ∷ xs))

  why_of-IsCause :
      (l : List ProviderBinding)
      → filter (serves_complexity c) bindings ≡ l
      → any (can_serve c s) bindings ≡ false
      → IsCause c s bindings (why_of l)
  why_of-IsCause [] e n = (refl, any-filter (serves_complexity c) bindings ∙ ap is_cons e, refl)
  why_of-IsCause (x ∷ xs) e n =
      let some_handle = any-filter (serves_complexity c) bindings ∙ ap is_cons e in
      let p = nothing_self_hosted c s bindings n some_handle in
      (p.0, some_handle, p.1, ap (map (λ b. b.name)) (sym e))

why_unfold :
    (c : TaskComplexity) (s : Sensitivity) (b : ProviderBinding) (bs : List ProviderBinding)
    → why_nothing_matched c s (b ∷ bs) ≡ why_of c s (b ∷ bs) (filter (serves_complexity c) (b ∷ bs))
unfolding why_nothing_matched
why_unfold c s b bs =
    elim (filter (serves_complexity c) (b ∷ bs))
      as (λ l.
        (elim l as (λ _. Reason) [
          | [] ↦ none_handles c (map (λ b. b.name) (b ∷ bs))
          | x ∷ xs ↦ none_self_hosted s (map (λ b. b.name) (x ∷ xs))
        ])
        ≡ why_of c s (b ∷ bs) l) [ [] ↦ refl | x ∷ xs ↦ refl ]

why_IsCause :
    (c : TaskComplexity) (s : Sensitivity) (bs : List ProviderBinding)
    → any (can_serve c s) bs ≡ false
    → IsCause c s bs (why_nothing_matched c s bs)
unfolding why_nothing_matched
why_IsCause c s [] n = refl
why_IsCause c s (b ∷ bs) n =
    subst (IsCause c s (b ∷ bs)) (sym (why_unfold c s b bs))
      (why_of-IsCause c s (b ∷ bs) (filter (serves_complexity c) (b ∷ bs)) refl n)

-- Where a request is refused, the reason that is given is its cause: nothing is configured, or no
-- configured provider handles the complexity, or some do, the request is sensitive, and none of
-- those is self-hosted; and the providers that it lists are those that it speaks of.
pub chain-IsCause :
    (c : TaskComplexity) (s : Sensitivity) (bindings : List ProviderBinding) (r : Reason)
    → chain c s bindings ≡ no_eligible r
    → IsCause c s bindings r
chain-IsCause c s bindings r e =
    let (none_left, why) =
      chain_of_empty c s bindings (filter (can_serve c s) bindings) r
        (sym (chain_unfold c s bindings) ∙ e) in
    subst (IsCause c s bindings) (sym why)
      (why_IsCause c s bindings (any-filter (can_serve c s) bindings ∙ ap is_cons none_left))

pub sensitive_hosted :
    (c : TaskComplexity) (bs : List ProviderBinding)
    → All (λ b. can_serve c sensitive b ≡ true) bs
    → All (λ b. b.self_hosted ≡ true) bs
unfolding can_serve is_sensitive
sensitive_hosted c [] a = tt
sensitive_hosted c (b ∷ bs) a = (ground (arith, a.0), sensitive_hosted c bs a.1)
