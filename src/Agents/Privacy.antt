-- ===== src/Agents/Privacy.antt =====
-- Where the runs of an agent send personal data: src/aidss/agents/base.py and src/aidss/llm.
use stock_recommendation_be.Base.{
  ℕ, zero, suc, ◌≡◌, refl, ◌∙◌, ap, true, ◌||◌, Option, none, some, List, [], ◌++◌, append_assoc,
  append-nil, ◌⊎◌, inl, inr, All, All-append,
}
use stock_recommendation_be.Llm.Router.{is_sensitive, ProviderBinding}
use stock_recommendation_be.Llm.Gateway.{
  LlmResponse, LlmGateway, Completed, response, budget_exceeded, no_provider, all_failed, passed_on,
  never,
}
use stock_recommendation_be.Llm.Gateway.Contacts.{sensitive_stays_home}
use stock_recommendation_be.Prompts.Validator.{ValidationFailure, Checks, validate}
use stock_recommendation_be.Agents.{
  Agent, AgentRunner, Prompt, Correction, after_failure, Ran, run_sensitivity, ask, keep,
  after_validation, after_answer, attempt_from, run, request_for,
}

-- No provider but a self-hosted one has been contacted in between.
abbrev pub StaysHome : LlmGateway → LlmGateway → Type 0
StaysHome g h =
    (new : List ProviderBinding) × (h.contacted ≡ g.contacted ++ new)
    × All (λ b. b.self_hosted ≡ true) new

StaysHome-refl : (g : LlmGateway) → StaysHome g g
StaysHome-refl g = ([], append-nil g.contacted, tt)

StaysHome-trans : (g h k : LlmGateway) → StaysHome g h → StaysHome h k → StaysHome g k
StaysHome-trans g h k a b = (
  a.0 ++ b.0,
  b.1 ∙ ap (λ l. l ++ b.0) a.1 ∙ append_assoc g.contacted a.0 b.0,
  All-append (λ p. p.self_hosted ≡ true) a.0 b.0 a.2 b.2,
)

-- The run is about personal data: the run's own setting or the agent says so.
abbrev pub IsPrivate : Agent → AgentRunner → Type 0
IsPrivate agent runner = (runner.high_privacy || is_sensitive agent.sensitivity) ≡ true

module _ {ℓ} {M : Type ℓ} (samples : ℕ → ℕ) (took : ProviderBinding → ℕ → ℕ)
    (compose : Option Correction → Prompt) (checks : Checks M) (agent : Agent) where
  ask-StaysHome :
      (corrective : Option Correction) (runner : AgentRunner)
      → IsPrivate agent runner
      → StaysHome runner.gateway (ask samples took compose checks agent corrective runner).1.gateway
  unfolding ask run_sensitivity
  ask-StaysHome corrective runner p =
      sensitive_stays_home samples took
        (request_for samples took compose checks agent (compose corrective) runner) runner.gateway
        (rw p refl)

  after_validation-StaysHome :
      (again : ValidationFailure → Ran M × AgentRunner) (attempt : ℕ) (prompt : Prompt)
      (r : LlmResponse) (v : ValidationFailure ⊎ M) (g : LlmGateway) (runner : AgentRunner)
      → StaysHome g runner.gateway
      → ((failure : ValidationFailure) → StaysHome g (again failure).1.gateway)
      → StaysHome g
          (after_validation samples took compose checks agent again attempt prompt r v
            runner).1.gateway
  unfolding after_validation keep
  after_validation-StaysHome again attempt prompt r (inl failure) g runner h ih = ih failure
  after_validation-StaysHome again attempt prompt r (inr output) g runner h ih = h

  after_answer-StaysHome :
      (again : ValidationFailure → Ran M × AgentRunner) (attempt : ℕ) (prompt : Prompt)
      (c : Completed) (g : LlmGateway) (runner : AgentRunner)
      → StaysHome g runner.gateway
      → ((failure : ValidationFailure) → StaysHome g (again failure).1.gateway)
      → StaysHome g
          (after_answer samples took compose checks agent again attempt prompt c runner).1.gateway
  unfolding after_answer
  after_answer-StaysHome again attempt prompt (response r) g runner h ih =
      after_validation-StaysHome again attempt prompt r (validate checks r.content) g runner h ih
  after_answer-StaysHome again attempt prompt budget_exceeded g runner h ih = h
  after_answer-StaysHome again attempt prompt (no_provider _) g runner h ih = h
  after_answer-StaysHome again attempt prompt (all_failed _) g runner h ih = h
  after_answer-StaysHome again attempt prompt (passed_on _) g runner h ih = h
  after_answer-StaysHome again attempt prompt never g runner h ih = h

  attempt_from-StaysHome :
      (fuel attempt : ℕ) (last : Option ValidationFailure) (corrective : Option Correction)
      (runner : AgentRunner)
      → IsPrivate agent runner
      → StaysHome runner.gateway
          (attempt_from samples took compose checks agent fuel attempt last corrective
            runner).1.gateway
  unfolding attempt_from ask
  attempt_from-StaysHome zero attempt none corrective runner p = StaysHome-refl runner.gateway
  attempt_from-StaysHome zero attempt (some failure) corrective runner p =
      StaysHome-refl runner.gateway
  attempt_from-StaysHome (suc fuel) attempt last corrective runner p =
      let asked = ask samples took compose checks agent corrective runner in
      let again : ValidationFailure → Ran M × AgentRunner = λ failure.
        attempt_from samples took compose checks agent fuel (suc attempt) (some failure)
          (some (after_failure failure)) asked.1 in
      after_answer-StaysHome again attempt (compose corrective) asked.0 runner.gateway asked.1
        (ask-StaysHome corrective runner p)
        (λ failure.
          StaysHome-trans runner.gateway asked.1.gateway (again failure).1.gateway
            (ask-StaysHome corrective runner p)
            (attempt_from-StaysHome fuel (suc attempt) (some failure) (some (after_failure failure))
              asked.1 p))

  -- A run that is private, by the setting for high privacy or by what the agent reads, contacts no
  -- provider but self-hosted ones: in no attempt, whether it succeeds or fails.
  pub run-StaysHome :
      (extra : Option Correction) (runner : AgentRunner)
      → IsPrivate agent runner
      → StaysHome runner.gateway (run samples took compose checks agent extra runner).1.gateway
  unfolding run
  run-StaysHome extra runner p =
      attempt_from-StaysHome (suc runner.max_validation_retries) 1 none extra runner p
