-- ===== src/Recommendations/Engine/Stored.antt =====
-- What the engine stores and when: src/aidss/recommendations/engine.py with the rules, the runner and
-- the validator below it.
use stock_recommendation_be.Base.{
  ℕ, zero, suc, ◌≡◌, inl, inr, refl, String, false, Option, none, some, List, [], ◌∷◌, ◌++◌,
  Bool-cases, Option-cases,
}
use stock_recommendation_be.Prompts.Validator.{validate}
use stock_recommendation_be.Agents.{
  AgentRun, AiMessage, AgentRunner, Correction, by_caller, Ran, finished, invalid, gateway_raised,
  no_attempt, run,
}
use stock_recommendation_be.Agents.Runs.{Ends, run-Ends}
use stock_recommendation_be.Recommendations.Rules.{RecommendationOutput, RuleReport, ok, check}
use stock_recommendation_be.Recommendations.Rules.Contract.{IsAcceptable, check_iff}
use stock_recommendation_be.Recommendations.Engine.{
  RecommendationResult, Recommendation, RecommendationEngine, Generated, generated,
  recommendation_rejected, no_report, row_of, Setting, recalibrate, result_of, store, after_run,
  generate_from, generate,
}

module _ (s : Setting) where
  -- What is stored of a result: nothing, or one row of it behind those before.
  abbrev pub Stored : List Recommendation → RecommendationResult → List Recommendation → Type 0
  Stored before r after = elim r.recommendation_id [
    | none ↦ after ≡ before
    | some id ↦
        (result_id : ℕ) × (s.analysis_result_id ≡ some result_id)
        × (after ≡ before ++ row_of id result_id r ∷ [])
  ]

  -- The output satisfies the rules under the score that is given with it, and a reply of the model
  -- validates to it.
  abbrev pub IsEarned : RecommendationResult → Type 0
  IsEarned r =
      IsAcceptable r.output r.calibration
      × (r.calibration ≡ recalibrate s r.output)
      × ((content : String) × (validate s.checks content ≡ inr r.output))

  abbrev pub Concludes : List Recommendation → Generated × RecommendationEngine → Type 0
  Concludes before e = elim e.0 [
    | generated r ↦ IsEarned r × Stored before r e.1.recommendations
    | recommendation_rejected report ↦ (ok report ≡ false) × (e.1.recommendations ≡ before)
    | no_report ↦ ⊥
    | _ ↦ e.1.recommendations ≡ before
  ]

  store-Concludes :
      (done : AgentRun RecommendationOutput) (engine : RecommendationEngine)
      → IsEarned (result_of s done none)
      → Concludes engine.recommendations (store s done engine)
  unfolding store
  store-Concludes done engine h = elim (Bool-cases s.persist) [
    | inl wanted ↦ elim (Option-cases s.analysis_result_id) [
      | inl nowhere ↦ rw (wanted, nowhere) (h, refl)
      | inr there ↦ rw (wanted, there.1) (h, (there.0, refl, refl))
    ]
    | inr unwanted ↦ rw unwanted (h, refl)
  ]

  after_run-Concludes :
      (again : RuleReport → Generated × RecommendationEngine) (r : Ran RecommendationOutput)
      (runner : AgentRunner) (engine : RecommendationEngine) (limit : ℕ)
      (before : Option (List AiMessage))
      → Ends s.checks limit before (r, runner)
      → ((report : RuleReport)
          → ok report ≡ false
          → Concludes engine.recommendations (again report))
      → Concludes engine.recommendations (after_run s again r engine)
  unfolding after_run
  after_run-Concludes again (finished done) runner engine limit before e ih =
      elim (Bool-cases (ok (check done.output (recalibrate s done.output)))) [
        | inl met ↦ rw met (
            store-Concludes done engine
              ((check_iff done.output (recalibrate s done.output)).0 met, refl, (e.2.0, e.2.1)))
        | inr unmet ↦ rw unmet (ih (check done.output (recalibrate s done.output)) unmet)
      ]
  after_run-Concludes again (invalid failure) runner engine limit before e ih = refl
  after_run-Concludes again (gateway_raised c) runner engine limit before e ih = refl
  after_run-Concludes again no_attempt runner engine limit before e ih = absurd e

  -- A pass is left, or a report has been made.
  abbrev CanConclude : ℕ → Option RuleReport → Type 0
  CanConclude zero none = ⊥
  CanConclude zero (some report) = ok report ≡ false
  CanConclude (suc _) _ = Unit

  generate_from-Concludes :
      (fuel : ℕ) (last : Option RuleReport) (correction : Option Correction)
      (engine : RecommendationEngine)
      → CanConclude fuel last
      → Concludes engine.recommendations (generate_from s fuel last correction engine)
  unfolding generate_from
  generate_from-Concludes zero none correction engine c = absurd c
  generate_from-Concludes zero (some report) correction engine c = (c, refl)
  generate_from-Concludes (suc fuel) last correction engine c =
      let done = run s.samples s.took s.compose s.checks s.agent correction engine.runner in
      let engine' : RecommendationEngine = record engine { runner = done.1 } in
      after_run-Concludes
        (λ report.
          generate_from s fuel (some report) (some (by_caller (s.corrective_instruction report)))
            engine')
        done.0 done.1 engine' (suc engine.runner.max_validation_retries) engine.runner.recorder
        (run-Ends s.samples s.took s.compose s.checks s.agent correction engine.runner)
        (λ report unmet.
          generate_from-Concludes fuel (some report)
            (some (by_caller (s.corrective_instruction report))) engine'
            (can_conclude fuel report unmet))
    where
      can_conclude :
          (fuel : ℕ) (report : RuleReport) → ok report ≡ false → CanConclude fuel (some report)
      can_conclude zero report unmet = unmet
      can_conclude (suc _) report unmet = tt

  -- The engine ends with a result, a rejection or an error of the runner. A result validates and
  -- satisfies the rules under the score calibrated for it; a row is stored for a result only, at most
  -- one, and it is that result's; every other end leaves the table as it was.
  pub generate-Concludes :
      (engine : RecommendationEngine) → Concludes engine.recommendations (generate s engine)
  unfolding generate
  generate-Concludes engine =
      generate_from-Concludes (suc engine.max_rule_retries) none none engine tt
