-- ===== src/Agents/Triage/Depths.antt =====
-- When a run is deep and when it is cheap: src/aidss/agents/triage.py, and the tier that
-- src/aidss/agents/base.py asks for.
use stock_recommendation_be.Base.{
  ◌≤◌, ◌≡◌, ◌↔◌, ◌⊎◌, inl, inr, refl, true, false, some, List, [], ◌∷◌, length, arith,
}
use stock_recommendation_be.Llm.Router.{TaskComplexity}
use stock_recommendation_be.Agents.{Agent, order_index, tier}
use stock_recommendation_be.Agents.Triage.{
  notable_range, notable_volume, Depth, full_run, standard_run, light_run, Scan, complexity_of,
  matched_score, is_notable, score_of, depth_of, assess,
}

-- Nothing in a scan stands out.
abbrev pub IsQuiet : Scan → Type 0
IsQuiet scan =
    (scan.matched ≡ [])
    × (is_notable notable_range scan.range_ratio ≡ false)
    × (is_notable notable_volume scan.volume_ratio ≡ false)

length-zero {ℓ} : {A : Type ℓ} (xs : List A) → (length xs ≡ 0) ↔ (xs ≡ [])
length-zero [] = ((λ _. refl), (λ _. refl))
length-zero (x ∷ xs) = ground arith

-- Enough in a scan stands out.
abbrev pub IsBusy : Scan → Type 0
IsBusy scan =
    (3 ≤ length scan.matched)
    ⊎ ((is_notable notable_range scan.range_ratio ≡ true) × (1 ≤ length scan.matched))
    ⊎ ((is_notable notable_volume scan.volume_ratio ≡ true) × (2 ≤ length scan.matched))
    ⊎ ((is_notable notable_range scan.range_ratio ≡ true)
        × (is_notable notable_volume scan.volume_ratio ≡ true))

light_iff : (scan : Scan) → ((assess scan false).depth ≡ light_run) ↔ IsQuiet scan
unfolding assess depth_of score_of matched_score
light_iff scan = ground (arith, length-zero scan.matched)

full_iff : (scan : Scan) → ((assess scan false).depth ≡ full_run) ↔ IsBusy scan
unfolding assess depth_of score_of matched_score
full_iff scan = ground arith

-- What the scan shows decides the depth of a run that nobody asked for: cheap exactly when nothing
-- stands out, deep exactly when three criteria matched, or one with a wide session, or two with a
-- high volume, or a wide session had a high volume. Only a cheap run lowers the tier of an agent, and
-- it never raises one.
pub assess_lem :
    (scan : Scan) (agent : Agent)
    → (((assess scan false).depth ≡ light_run) ↔ IsQuiet scan)
      × (((assess scan false).depth ≡ full_run) ↔ IsBusy scan)
      × (order_index (tier agent (some (complexity_of (assess scan false).depth)))
          ≤ order_index agent.complexity)
      × ((tier agent (some (complexity_of (assess scan false).depth)) ≡ agent.complexity)
          ⊎ IsQuiet scan)
unfolding tier order_index complexity_of
assess_lem scan agent = (
  light_iff scan,
  full_iff scan,
  lowers (complexity_of (assess scan false).depth),
  kept (assess scan false).depth (light_iff scan).0,
)
  where
    lowers :
        (cap : TaskComplexity) → order_index (tier agent (some cap)) ≤ order_index agent.complexity
    lowers cap = ground arith

    kept :
        (d : Depth)
        → (d ≡ light_run → IsQuiet scan)
        → (tier agent (some (complexity_of d)) ≡ agent.complexity) ⊎ IsQuiet scan
    kept light_run h = inr (h refl)
    kept full_run h = inl (ground arith)
    kept standard_run h = inl (ground arith)
