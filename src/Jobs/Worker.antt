-- ===== src/Jobs/Worker.antt =====
-- The worker: src/aidss/jobs/worker.py, with the handler registry of src/aidss/jobs/handlers.py.
-- A handler is an argument: what it does to the queue table, and how it ends. So are `saves`, whether
-- the flush and the commit that end the job succeed on the session that the handler has used, and
-- `recovers`, whether they do on the fresh session of an unexpected failure. The transaction of the
-- claim is taken to succeed. Logging, metrics and the sleep between rounds are left out.
pub mod Accounting
use stock_recommendation_be.Base.{
  ℕ, ◌+◌, ◌≡◌, String, Bool, true, false, Option, none, some, List, [], ◌∷◌, if◌then◌else◌, str_eq,
  text_append, find, is_some,
}
use stock_recommendation_be.Base.Json.{Fields}
use stock_recommendation_be.Jobs.Queue.{
  JobQueueEntry, Table, has_id, claim, complete, fail, defer, save,
}

pub record WorkerStats : Type 0 where
  pub processed : ℕ
  pub succeeded : ℕ
  pub failed : ℕ
  pub dead : ℕ
  pub deferred : ℕ

-- How a handler ends: it returns, or raises JobDeferred, PermanentJobError,
-- ProviderUnavailableError or any other exception (its class and its text).
pub data HandlerEnd : Type 0 where
  returns : Option Fields → HandlerEnd
  job_deferred : (until : ℕ) (reason : String) → HandlerEnd
  permanent : (error : String) → HandlerEnd
  provider_unavailable : (error : String) (retryable : Bool) → HandlerEnd
  raises : (class_name error : String) → HandlerEnd

-- A handler runs on the session of the worker: it may write to the table, uncommitted.
abbrev pub Handler : Type 0
Handler = Fields → Table → HandlerEnd × Table

unfoldable pub get_handler : List (String × Handler) → String → Option Handler
get_handler [] job_type = none
get_handler ((n, h) ∷ hs) job_type = if str_eq n job_type then some h else get_handler hs job_type

pub data Outcome : Type 0 where
  missing deferred_outcome dead_outcome failed_outcome succeeded_outcome : Outcome

-- `_record_unexpected_failure`: after the rollback, on a fresh session, which may fail as well.
unfoldable pub record_unexpected_failure : ℕ → Bool → ℕ → String → String → Table → Table
record_unexpected_failure now recovers job_id class_name error committed =
    if recovers
    then save job_id (fail now (text_append class_name (text_append ": " error)) true) committed
    else committed

-- An operation of the queue on the session of the handler, its commit, and the counter behind it.
-- Where the flush or the commit raises, the exception passes on (`none`), the session is closed with
-- nothing committed, and nothing is counted.
unfoldable pub settle_saved :
    Bool
    → Outcome
    → Table
    → Table
    → WorkerStats
    → WorkerStats
    → Option Outcome × Table × WorkerStats
settle_saved saves outcome committed settled s counted =
    if saves then (some outcome, settled, counted) else (none, committed, s)

-- The `except` clauses of `_run_handler` and the lines after them. `committed` is the table before
-- the handler ran, `worked` after it.
unfoldable pub settle_job :
    ℕ
    → (saves recovers : Bool) → ℕ
    → HandlerEnd
    → Table
    → Table
    → WorkerStats
    → Option Outcome × Table × WorkerStats
unfolding record_unexpected_failure settle_saved
settle_job now saves recovers job_id (returns result) committed worked s =
    settle_saved saves succeeded_outcome committed (save job_id (complete now result) worked) s
      (record s { succeeded = s.succeeded + 1 })
settle_job now saves recovers job_id (job_deferred until reason) committed worked s =
    settle_saved saves deferred_outcome committed (save job_id (defer until reason) worked) s
      (record s { deferred = s.deferred + 1 })
settle_job now saves recovers job_id (permanent error) committed worked s =
    settle_saved saves dead_outcome committed (save job_id (fail now error false) worked) s
      (record s { dead = s.dead + 1 })
settle_job now saves recovers job_id (provider_unavailable error retryable) committed worked s =
    settle_saved saves failed_outcome committed (save job_id (fail now error retryable) worked) s
      (record s { failed = s.failed + 1 })
settle_job now saves recovers job_id (raises class_name error) committed worked s = (
  some failed_outcome,
  record_unexpected_failure now recovers job_id class_name error committed,
  record s { failed = s.failed + 1 },
)

-- `get_handler(job_type)(session, payload)`; `unknown` is the text of the error that names the
-- unknown job type.
unfoldable pub call_handler :
    List (String × Handler) → String → String → Fields → Table → HandlerEnd × Table
unfolding get_handler
call_handler hs unknown job_type payload t = elim (get_handler hs job_type) [
  | none ↦ (permanent unknown, t)
  | some h ↦ h payload t
]

unfoldable pub run_handler :
    List (String × Handler)
    → String
    → ℕ
    → (saves recovers : Bool) → ℕ
    → String
    → Fields
    → Table
    → WorkerStats
    → Option Outcome × Table × WorkerStats
unfolding call_handler settle_job
run_handler hs unknown now saves recovers job_id job_type payload t s =
    elim (find (has_id job_id) t) [
      | none ↦ (some missing, t, s)
      | some e ↦
          let (how, worked) = call_handler hs unknown job_type payload t in
          settle_job now saves recovers job_id how t worked s
    ]

-- `_execute`: the `finally` counts the job whatever its outcome.
unfoldable pub execute :
    List (String × Handler)
    → String
    → ℕ
    → (saves recovers : Bool) → ℕ
    → String
    → Fields
    → Table
    → WorkerStats
    → Option Outcome × Table × WorkerStats
unfolding run_handler
execute hs unknown now saves recovers job_id job_type payload t s =
    let (outcome, t', s') = run_handler hs unknown now saves recovers job_id job_type payload t s in
    (outcome, t', record s' { processed = s'.processed + 1 })

-- `run_once`: the claim is committed before the handler runs. `between` and `skip` are the other
-- workers, as in `claim`. An exception of `_execute` passes on (`none`).
unfoldable pub run_once :
    List (String × Handler)
    → String
    → ℕ
    → (saves recovers : Bool) → String
    → (ℕ → Bool)
    → (Table → Table)
    → Table
    → WorkerStats
    → Option Bool × Table × WorkerStats
unfolding claim execute
run_once hs unknown now saves recovers worker skip between t s =
    let (claimed, t') = claim now worker skip between t in
    elim claimed [
      | none ↦ (some false, t', s)
      | some e ↦
          let (outcome, t'', s') =
            execute hs unknown now saves recovers e.id e.job_type e.payload t' s in
          (if is_some outcome then some true else none, t'', s')
    ]
