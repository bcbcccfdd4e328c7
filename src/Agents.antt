-- ===== src/Agents.antt =====
-- The runner of an agent: src/aidss/agents/base.py. It composes a prompt, asks the gateway of
-- src/aidss/llm, validates the reply, and corrects once. How a template is composed is an argument,
-- and the recorder of the conversation keeps its rows as a list.
mod Tests
pub mod Runs
pub mod Privacy
pub mod Triage
use stock_recommendation_be.Base.{
  ℕ, zero, suc, ◌+◌, String, Bool, true, false, ◌||◌, Option, none, some, List, [], ◌∷◌, ◌++◌, ◌⊎◌,
  inl, inr, ltb, if◌then◌else◌,
}
use stock_recommendation_be.Llm.Cost.{Usage}
use stock_recommendation_be.Llm.Router.{
  TaskComplexity, light, standard, complex, Sensitivity, public, sensitive, is_sensitive,
  ProviderBinding,
}
use stock_recommendation_be.Llm.Gateway.{
  LlmRequest, LlmResponse, LlmGateway, Completed, response, complete,
}
use stock_recommendation_be.Prompts.Validator.{ValidationFailure, Checks, validate}

pub record Agent : Type 0 where
  pub name : String
  pub template_name : String
  pub complexity : TaskComplexity
  pub sensitivity : Sensitivity

pub record AgentRun {ℓ} (M : Type ℓ) : Type ℓ where
  pub agent : String
  pub output : M
  pub usage : Usage
  pub template_name : String
  pub template_version : String
  pub attempts : ℕ
  pub fallbacks_used : List String

-- What `PromptComposer.compose` returns, with the content of its last message.
pub record Prompt : Type 0 where
  pub messages : List String
  pub last_content : String
  pub template_name : String
  pub template_version : String

-- A row of `ai_messages`; the second flag of the source, `role`, is `user` or `assistant`.
pub data Role : Type 0 where
  user : Role
  assistant : Role

pub record AiMessage : Type 0 where
  pub agent_name : String
  pub role : Role
  pub content : String
  pub model_used : String
  pub prompt_tokens : ℕ
  pub completion_tokens : ℕ
  pub cost_estimate : Option ℕ

-- Why a correction is asked for: the runner's own reason, or its caller's.
pub data Correction : Type 0 where
  after_failure : ValidationFailure → Correction
  by_caller : String → Correction

pub record AgentRunner : Type 0 where
  pub gateway : LlmGateway
  -- `none` where there is no recorder.
  pub recorder : Option (List AiMessage)
  pub max_validation_retries : ℕ
  pub high_privacy : Bool
  pub complexity_cap : Option TaskComplexity

-- `order.index`.
unfoldable pub order_index : TaskComplexity → ℕ
order_index light = 0
order_index standard = 1
order_index complex = 2

-- The agent's own tier, lowered to the cap when one is set.
unfoldable pub tier : Agent → Option TaskComplexity → TaskComplexity
unfolding order_index
tier agent none = agent.complexity
tier agent (some cap) =
    if ltb (order_index cap) (order_index agent.complexity) then cap else agent.complexity

unfoldable pub run_sensitivity : Agent → AgentRunner → Sensitivity
unfolding is_sensitive
run_sensitivity agent runner =
    if runner.high_privacy || is_sensitive agent.sensitivity then sensitive else public

-- `ConversationRecorder.record`.
unfoldable pub record_run {ℓ} :
    {M : Type ℓ}
    → AgentRun M
    → (prompt_text response_text : String) → List AiMessage
    → List AiMessage
record_run run prompt_text response_text rows =
    rows
    ++ (record {
      agent_name = run.agent;
      role = user;
      content = prompt_text;
      model_used = run.usage.model;
      prompt_tokens = run.usage.prompt_tokens;
      completion_tokens = 0;
      cost_estimate = none;
    }
        ∷ record {
          agent_name = run.agent;
          role = assistant;
          content = response_text;
          model_used = run.usage.model;
          prompt_tokens = 0;
          completion_tokens = run.usage.completion_tokens;
          cost_estimate = some run.usage.cost_estimate;
        }
        ∷ [])

-- How a run ends: with a run, with the last validation failure, with what the gateway raised, or at
-- the assertion after a loop without a pass.
pub data Ran {ℓ} (M : Type ℓ) : Type ℓ where
  finished : AgentRun M → Ran M
  invalid : ValidationFailure → Ran M
  gateway_raised : Completed → Ran M
  no_attempt : Ran M

module _ {ℓ} {M : Type ℓ} (samples : ℕ → ℕ) (took : ProviderBinding → ℕ → ℕ)
    (compose : Option Correction → Prompt) (checks : Checks M) (agent : Agent) where
  abbrev pub request_for : Prompt → AgentRunner → LlmRequest
  request_for prompt runner = record {
    messages = prompt.messages;
    complexity = tier agent runner.complexity_cap;
    sensitivity = run_sensitivity agent runner;
    expects_json = true;
    agent = some agent.name;
  }

  -- One pass of the loop up to the gateway's answer.
  unfoldable pub ask : Option Correction → AgentRunner → Completed × AgentRunner
  unfolding tier run_sensitivity
  ask corrective runner =
      let done = complete samples took (request_for (compose corrective) runner) runner.gateway in
      (done.0, record runner { gateway = done.1 })

  abbrev pub run_of : Prompt → LlmResponse → ℕ → M → AgentRun M
  run_of prompt r attempt output = record {
    agent = agent.name;
    output = output;
    usage = r.usage;
    template_name = prompt.template_name;
    template_version = prompt.template_version;
    attempts = attempt;
    fallbacks_used = r.fallbacks_used;
  }

  unfoldable pub keep : Prompt → LlmResponse → AgentRun M → AgentRunner → AgentRunner
  unfolding record_run
  keep prompt r run runner = record runner {
    recorder = elim runner.recorder [
      | none ↦ none
      | some rows ↦ some (record_run run prompt.last_content r.content rows)
    ];
  }

  -- `continue` after a failure is `again`.
  unfoldable pub after_validation :
      (ValidationFailure → Ran M × AgentRunner)
      → ℕ
      → Prompt
      → LlmResponse
      → ValidationFailure ⊎ M
      → AgentRunner
      → Ran M × AgentRunner
  unfolding keep
  after_validation again attempt prompt r (inl failure) runner = again failure
  after_validation again attempt prompt r (inr output) runner =
      let run = run_of prompt r attempt output in (finished run, keep prompt r run runner)

  unfoldable pub after_answer :
      (ValidationFailure → Ran M × AgentRunner)
      → ℕ
      → Prompt
      → Completed
      → AgentRunner
      → Ran M × AgentRunner
  unfolding after_validation
  after_answer again attempt prompt (response r) runner =
      after_validation again attempt prompt r (validate checks r.content) runner
  after_answer again attempt prompt other runner = (gateway_raised other, runner)

  -- The loop, on the number of passes left; `last` is `last_failure`.
  pub attempt_from :
      (fuel attempt : ℕ)
      → Option ValidationFailure
      → Option Correction
      → AgentRunner
      → Ran M × AgentRunner
  unfolding ask after_answer
  attempt_from zero attempt none corrective runner = (no_attempt, runner)
  attempt_from zero attempt (some failure) corrective runner = (invalid failure, runner)
  attempt_from (suc fuel) attempt last corrective runner =
      let asked = ask corrective runner in
      after_answer
        (λ failure.
          attempt_from fuel (suc attempt) (some failure) (some (after_failure failure)) asked.1)
        attempt (compose corrective) asked.0 asked.1

  unfoldable pub run : Option Correction → AgentRunner → Ran M × AgentRunner
  unfolding attempt_from
  run extra_instruction runner =
      attempt_from (suc runner.max_validation_retries) 1 none extra_instruction runner
