-- ===== src/Agents/Runs.antt =====
-- How the run of an agent ends, and what it records: src/aidss/agents/base.py.
use stock_recommendation_be.Base.{
  ℕ, zero, suc, ◌+◌, ◌≤◌, ◌≡◌, refl, String, Bool, true, false, Option, none, some, List, ◌⊎◌, inl,
  inr, arith,
}
use stock_recommendation_be.Llm.Router.{ProviderBinding}
use stock_recommendation_be.Llm.Gateway.{
  LlmResponse, Completed, response, budget_exceeded, no_provider, all_failed, passed_on, never,
}
use stock_recommendation_be.Prompts.Validator.{ValidationFailure, Checks, validate}
use stock_recommendation_be.Agents.{
  Agent, AgentRunner, AgentRun, AiMessage, Prompt, Correction, after_failure, Ran, finished,
  invalid, gateway_raised, no_attempt, ask, keep, record_run, after_validation, after_answer,
  attempt_from, run, run_of,
}

abbrev pub is_response : Completed → Bool
is_response (response _) = true
is_response _ = false

module _ {M : Type 0} (checks : Checks M) where
  -- What the rows of the conversation are after a run, from those before it.
  abbrev pub Recorded :
      Option (List AiMessage) → AgentRun M → (content : String) → Option (List AiMessage) → Type 0
  Recorded none done content rows = rows ≡ none
  Recorded (some before) done content rows =
      (prompt_text : String) × (rows ≡ some (record_run done prompt_text content before))

  -- The end of a run of at most `limit` attempts, on a runner that keeps the rows `before`: an
  -- output is what the validator made of the reply that is recorded with it, a failure is what it
  -- found in the last reply, and only the gateway ends a run otherwise.
  abbrev pub Ends : (limit : ℕ) → Option (List AiMessage) → Ran M × AgentRunner → Type 0
  Ends limit before r = elim r.0 [
    | finished done ↦
        (1 ≤ done.attempts)
        × (done.attempts ≤ limit)
        × ((content : String) × (validate checks content ≡ inr done.output)
            × Recorded before done content r.1.recorder)
    | invalid failure ↦
        ((content : String) × (validate checks content ≡ inl failure)) × (r.1.recorder ≡ before)
    | gateway_raised c ↦ (is_response c ≡ false) × (r.1.recorder ≡ before)
    | no_attempt ↦ ⊥
  ]

module _ {M : Type 0} (samples : ℕ → ℕ) (took : ProviderBinding → ℕ → ℕ)
    (compose : Option Correction → Prompt) (checks : Checks M) (agent : Agent) where
  keep-Recorded :
      (before : Option (List AiMessage)) (prompt : Prompt) (r : LlmResponse) (done : AgentRun M)
      (runner : AgentRunner)
      → runner.recorder ≡ before
      → Recorded checks before done r.content
          (keep samples took compose checks agent prompt r done runner).recorder
  unfolding keep
  keep-Recorded none prompt r done runner h = rw h refl
  keep-Recorded (some rows) prompt r done runner h = (prompt.last_content, rw h refl)

  -- `asked` is the runner on which the next attempt starts.
  after_validation-Ends :
      (limit : ℕ) (before : Option (List AiMessage))
      (again : ValidationFailure → Ran M × AgentRunner) (attempt : ℕ) (prompt : Prompt)
      (r : LlmResponse) (v : ValidationFailure ⊎ M) (runner : AgentRunner)
      → validate checks r.content ≡ v
      → 1 ≤ attempt
      → attempt ≤ limit
      → runner.recorder ≡ before
      → ((failure : ValidationFailure)
          → validate checks r.content ≡ inl failure
          → Ends checks limit before (again failure))
      → Ends checks limit before
          (after_validation samples took compose checks agent again attempt prompt r v runner)
  unfolding after_validation
  after_validation-Ends limit before again attempt prompt r (inl failure) runner e lo hi same ih =
      ih failure e
  after_validation-Ends limit before again attempt prompt r (inr output) runner e lo hi same ih = (
    lo,
    hi,
    (
      r.content,
      e,
      keep-Recorded before prompt r
          (run_of samples took compose checks agent prompt r attempt output) runner same,
    ),
  )

  after_answer-Ends :
      (limit : ℕ) (before : Option (List AiMessage))
      (again : ValidationFailure → Ran M × AgentRunner) (attempt : ℕ) (prompt : Prompt)
      (c : Completed) (runner : AgentRunner)
      → 1 ≤ attempt
      → attempt ≤ limit
      → runner.recorder ≡ before
      → ((content : String) (failure : ValidationFailure)
          → validate checks content ≡ inl failure
          → Ends checks limit before (again failure))
      → Ends checks limit before
          (after_answer samples took compose checks agent again attempt prompt c runner)
  unfolding after_answer
  after_answer-Ends limit before again attempt prompt (response r) runner lo hi same ih =
      after_validation-Ends limit before again attempt prompt r (validate checks r.content) runner
        refl lo hi same (ih r.content)
  after_answer-Ends limit before again attempt prompt budget_exceeded runner lo hi same ih =
      (refl, same)
  after_answer-Ends limit before again attempt prompt (no_provider _) runner lo hi same ih =
      (refl, same)
  after_answer-Ends limit before again attempt prompt (all_failed _) runner lo hi same ih =
      (refl, same)
  after_answer-Ends limit before again attempt prompt (passed_on _) runner lo hi same ih =
      (refl, same)
  after_answer-Ends limit before again attempt prompt never runner lo hi same ih = (refl, same)

  -- What the loop has found so far: at least one pass is left, or a reply has failed.
  abbrev CanEnd : ℕ → Option ValidationFailure → Type 0
  CanEnd zero none = ⊥
  CanEnd zero (some failure) = (content : String) × (validate checks content ≡ inl failure)
  CanEnd (suc _) _ = Unit

  attempt_from-Ends :
      (limit fuel attempt : ℕ) (last : Option ValidationFailure) (corrective : Option Correction)
      (runner : AgentRunner)
      → CanEnd fuel last
      → 1 ≤ attempt
      → attempt + fuel ≤ suc limit
      → Ends checks limit runner.recorder
          (attempt_from samples took compose checks agent fuel attempt last corrective runner)
  unfolding attempt_from ask
  attempt_from-Ends limit zero attempt none corrective runner c lo hi = c
  attempt_from-Ends limit zero attempt (some failure) corrective runner c lo hi = (c, refl)
  attempt_from-Ends limit (suc fuel) attempt last corrective runner c lo hi =
      let asked = ask samples took compose checks agent corrective runner in
      let again : ValidationFailure → Ran M × AgentRunner = λ failure.
        attempt_from samples took compose checks agent fuel (suc attempt) (some failure)
          (some (after_failure failure)) asked.1 in
      after_answer-Ends limit runner.recorder again attempt (compose corrective) asked.0 asked.1 lo
        (omega arith) refl
        (λ content failure e.
          attempt_from-Ends limit fuel (suc attempt) (some failure) (some (after_failure failure))
            asked.1 (can_end fuel content failure e) (omega arith) (omega arith))
    where
      can_end :
          (fuel : ℕ) (content : String) (failure : ValidationFailure)
          → validate checks content ≡ inl failure
          → CanEnd fuel (some failure)
      can_end zero content failure e = (content, e)
      can_end (suc _) content failure e = tt

  pub run-Ends :
      (extra : Option Correction) (runner : AgentRunner)
      → Ends checks
          (suc runner.max_validation_retries)
          runner.recorder
          (run samples took compose checks agent extra runner)
  unfolding run
  run-Ends extra runner =
      attempt_from-Ends (suc runner.max_validation_retries) (suc runner.max_validation_retries) 1
        none extra runner tt (omega arith) (omega arith)
