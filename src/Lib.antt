-- ===== src/Lib.antt =====
-- Verification library of the stock recommendation backend (src/aidss), a service that gathers market
-- data by background jobs and asks language models about it.
--
-- The program keeps its state in a database that several processes share. A scheduler, of which one
-- instance at a time leads by a lease, puts jobs into a queue; workers claim them, run their handlers
-- and settle them; handlers that call an outside data source first reserve part of its daily
-- allowance. Agents reach language models through one gateway, which routes a request to a chain of
-- providers and guards each by a circuit breaker, a rate limiter and retries. What a model replies is
-- validated, and corrected once, by the runner of the agents; the recommendation engine asks such a
-- run for a label and a narrative, calibrates a confidence from the evidence, checks the answer against
-- rules, and stores it. Alerts are raised on watched prices, and events reach the browsers of a reader
-- through a hub of bounded queues.
--
-- Modules, and the code that they model:
--   Base            Boolean tests, lists, integers, dicts, the stable sort of Python's sorted, the JSON
--                   values of payloads, and UPDATE and DELETE statements on a table as a list of rows.
--   Jobs.Queue      src/aidss/jobs/queue.py, with JobQueueEntry of src/aidss/db/models/system.py:
--                   enqueue, claim, complete, retry_delay, fail, defer, reclaim_abandoned, stats.
--                   A table is the list of its rows. What other sessions commit between two statements
--                   of one operation is an argument where the model has it: `between` from the SELECT
--                   to the UPDATE of claim, `race` the rows added before an INSERT is flushed; at other
--                   points nothing is committed by others. A Session keeps the committed table beside
--                   the working one, for the rollback. The rows stand in Jobs.Queue.Rows,
--                   enqueue in Jobs.Queue.Enqueueing.
--   Jobs.Leader     src/aidss/jobs/leader.py: LeaseHolder.acquire, release, and current_leader.
--   Jobs.Quota      src/aidss/jobs/quota.py: state, reserve, reserve_durably, next_reset.
--   Jobs.Worker     src/aidss/jobs/worker.py: Worker.run_once with _execute, _run_handler and
--                   _record_unexpected_failure; what a handler does is an argument, and so is whether the
--                   commit of its outcome succeeds.
--   Llm.Retry, Llm.RateLimiter, Llm.CircuitBreaker
--                   src/aidss/llm/resilience.py: call_with_retry and RetryPolicy, RateLimiter,
--                   CircuitBreaker.
--   Llm.Router      src/aidss/llm/router.py: can_serve, chain, _why_nothing_matched.
--   Llm.Cost        src/aidss/llm/cost.py: estimate_cost, CostTracker.
--   Llm.Gateway     src/aidss/llm/gateway.py: LLMGateway.complete, with the functions above composed as
--                   the source composes them.
--   Collab.Sharing  src/aidss/collab/sharing.py: share, revoke, readable, outgoing, incoming;
--                   the tables stand in Collab.Sharing.Tables.
--   Market.IdxRules src/aidss/market/idx_rules.py: limit_fraction, auto_reject_band, headroom, proximity.
--   Security.Rbac   src/aidss/security/rbac.py: permissions_for, has_permission.
--   Realtime.EventHub
--                   src/aidss/realtime/hub.py: subscribe, unsubscribe, _deliver, and the socket of
--                   src/aidss/api/routes/events.py that takes from a queue.
--   Prompts.Validator
--                   src/aidss/prompts/validator.py: validate, check_language, _collect_text.
--   Agents, Agents.Triage
--                   src/aidss/agents/base.py: AgentRunner.run, ConversationRecorder.record;
--                   src/aidss/agents/triage.py: assess, triage_for.
--   Domain          what several parts share of src/aidss/domain/types.py.
--   Recommendations.Calibration, Recommendations.Levels
--                   src/aidss/recommendations/calibration.py: calibrate, evidence_direction,
--                   derive_levels.
--   Recommendations.Rules, Recommendations.Engine, Recommendations.Strategy
--                   rules.py, engine.py and strategy.py beside it: check, generate, build_strategy.
--   Monitoring.Alerts, Monitoring.Recording
--                   src/aidss/monitoring/alerts.py: evaluate, record.
--   Monitoring.Agenda
--                   src/aidss/monitoring/agenda.py: store_entries, raise_notices.
--   Collectors.Validation
--                   src/aidss/collectors/validation.py: validate_candles.
--   Portfolio.Simulation
--                   src/aidss/portfolio/simulation.py: apply_changes.
-- The other modules below a component hold its proofs, and are named for what they prove; the modules named
-- Tests hold runs at small inputs.
--
-- Numbers. Instants and lengths of time are natural numbers of one tick; a quota is an integer, since
-- its limit may be negative. Money is in millionths of the currency, the quantum to which the source
-- rounds, and prices are whole millionths per thousand tokens. Jitter is in thousandths, and its draw
-- is an argument. Identifiers are natural numbers. Prices of shares are in hundredths of a rupiah, or
-- in whole numbers of a smallest unit where only their order and their ratios matter. The confidence of
-- a recommendation is an exact fraction where the source has a float; rounding it to tenths is an
-- argument of which only that it goes to a nearest tenth is ever used.
--
-- Loops. The loop of RateLimiter.acquire runs on fuel, of which acquire_slot gives it two rounds: one
-- that waits for the oldest hit to leave the window, and one that takes the slot. The runner of an
-- agent and the recommendation engine go by the number of passes left, one more than the retries, which
-- is how the source counts. All other loops are by recursion on a list or on the number of attempts
-- left.
--
-- Not modelled: logging, metrics, the idle loops and signal handling of the processes, the text of
-- messages and prompts, and code outside the repository (the database, the adapters' HTTP clients, the
-- parsing of JSON, the schemas' validation, regular expressions), which stands as arguments. The API
-- routes, indicators and other statistics over data frames, the screener, news, reporting, retrieval
-- and the frontend have no module here.
pub mod Base
pub mod Jobs
pub mod Collab
pub mod Market
pub mod Security
pub mod Realtime
pub mod Domain
pub mod Prompts
pub mod Collectors
pub mod Portfolio
pub mod Monitoring
pub mod Agents
pub mod Recommendations
pub mod Llm
