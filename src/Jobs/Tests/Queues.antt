-- ===== src/Jobs/Tests/Queues.antt =====
-- The queue and the worker of src/aidss/jobs at small inputs.
use stock_recommendation_be.Base.{
  ℕ, suc, ◌≤◌, ◌≡◌, refl, String, Bool, true, false, Option, none, some, List, [], ◌∷◌, ◌++◌, arith,
  str_eq,
}
use stock_recommendation_be.Base.Json.{end}
use stock_recommendation_be.Base.Sql.{rowcount}
use stock_recommendation_be.Jobs.Queue.{
  JobQueueEntry, Table, Session, EnqueueRequest, returned, pending, dead, violates, enqueue,
  select_next, still_pending, claim, complete, save, retry_delay, reclaim_abandoned,
}
use stock_recommendation_be.Jobs.Queue.Backoff.{failing_rounds, retries_run_out}
use stock_recommendation_be.Jobs.Queue.Claims.{
  DistinctIds, TakesEarliest, claim-TakesEarliest, claim_exclusive, held_by,
}
use stock_recommendation_be.Jobs.Queue.Dedup.{enqueue_idempotent}
use stock_recommendation_be.Jobs.Queue.Lifecycle.{IsSound}
use stock_recommendation_be.Jobs.Queue.Reach.{here, next, claims, reclaims, Reach-IsSound}
use stock_recommendation_be.Jobs.Worker.{WorkerStats, returns, Handler, run_handler, run_once}

abbrev job : ℕ → ℕ → Option String → JobQueueEntry
job i due key = record {
  id = i;
  scheduler_job_id = none;
  job_type = "news.ingest";
  payload = end;
  status = pending;
  retry_count = 0;
  max_retries = 3;
  last_error = none;
  result = none;
  available_at = due;
  locked_at = none;
  locked_by = none;
  dedup_key = key;
  started_at = none;
  finished_at = none;
}

abbrev table : Table
table = job 1 50 none ∷ job 2 20 (some "a") ∷ job 3 90 (some "b") ∷ []

abbrev free : ℕ → Bool
free i = false

abbrev alone : Table → Table
alone t = t

-- The second row is due first.
next_row : select_next 60 free table ≡ some (job 2 20 (some "a"))
unfolding select_next
next_row = refl

table-DistinctIds : DistinctIds table
table-DistinctIds = (refl, (refl, (refl, tt)))

claim-TakesEarliest_example : TakesEarliest 60 "w1" free table
claim-TakesEarliest_example = claim-TakesEarliest 60 "w1" free table table-DistinctIds

-- After the claim of the first worker, somebody commits another job.
abbrev rest : Table → Table
rest u = u ++ job 9 0 none ∷ []

rest_quiet :
    (u : Table) → rowcount (still_pending 2) u ≡ 0 → rowcount (still_pending 2) (rest u) ≡ 0
unfolding still_pending
rest_quiet [] h = refl
rest_quiet (e ∷ u) h = ground (arith, rest_quiet u)

claim_exclusive_example :
    let first = λ (u : Table). claim 60 "w1" free alone u in
    ((first table).0 ≡ some (held_by 60 "w1" (job 2 20 (some "a"))))
    × (claim 61 "w2" free (λ u. rest (first u).1) table ≡ (none, rest (first table).1))
unfolding select_next
claim_exclusive_example =
    claim_exclusive 60 61 "w1" "w2" free free rest table (job 2 20 (some "a")) table-DistinctIds
      refl refl rest_quiet

abbrev request : EnqueueRequest
request = record {
  job_type = "news.ingest";
  payload = none;
  dedup_key = some "c";
  available_at = none;
  max_retries = 3;
  scheduler_job_id = none;
}

-- A session with one row of its own that is not committed yet.
abbrev session : Session
session = record { committed = table; working = table ++ job 4 10 (some "d") ∷ [] }

abbrev rival : Table
rival = job 7 10 (some "c") ∷ []

-- Another job, with the key of the first.
abbrev other_request : EnqueueRequest
other_request = record request { job_type = "agenda.notify"; max_retries = 5 }

abbrev known_jobs : ℕ → Bool
known_jobs i = true

enqueue_idempotent_example :
    enqueue known_jobs 9 70 rival other_request (enqueue known_jobs 8 60 [] request session).1 ≡ (
      returned (record { job_id = 8; created = false }),
      (enqueue known_jobs 8 60 [] request session).1,
    )
unfolding enqueue str_eq
enqueue_idempotent_example =
    enqueue_idempotent known_jobs known_jobs 8 60 9 70 [] rival request other_request session
      (record { job_id = 8; created = true }) refl refl refl

-- A job of no schedule that exists, without a key: the answer is another job.
abbrev unkeyed_request : EnqueueRequest
unkeyed_request = record request { dedup_key = none; scheduler_job_id = some 5 }

dangling_run :
    (enqueue (λ i. false) 8 60 [] unkeyed_request session).0
    ≡ returned (record { job_id = 1; created = false })
unfolding enqueue
dangling_run = refl

retry_delays : retry_delay 5 ≡ 480
unfolding retry_delay
retry_delays = refl

retries_run_out_example :
    ((n : ℕ)
      → n ≤ 3
      → ((failing_rounds n 60 "w1" "timeout" (job 1 50 none)).status ≡ pending)
        × ((failing_rounds n 60 "w1" "timeout" (job 1 50 none)).retry_count ≡ n))
    × ((failing_rounds (suc 3) 60 "w1" "timeout" (job 1 50 none)).status ≡ dead)
    × ((failing_rounds (suc 3) 60 "w1" "timeout" (job 1 50 none)).finished_at ≡ some 60)
retries_run_out_example = retries_run_out 60 "w1" "timeout" (job 1 50 none) refl refl

-- A claim and the reclaim of the job after its worker died.
abbrev after_claim : Table
after_claim = (claim 60 "w1" free alone table).1

abbrev after_reclaim : Table
after_reclaim = (reclaim_abandoned 2000 900 after_claim).1

Reach-IsSound_example : IsSound after_reclaim
unfolding violates str_eq
Reach-IsSound_example =
    Reach-IsSound {t = table} (next (next here (claims 60 "w1" free refl)) (reclaims 2000 900 refl))
      (ground arith, table-DistinctIds, (refl, (refl, (refl, tt))))

abbrev handlers : List (String × Handler)
handlers = ("news.ingest", λ payload t. (returns none, t)) ∷ []

abbrev no_stats : WorkerStats
no_stats = record { processed = 0; succeeded = 0; failed = 0; dead = 0; deferred = 0 }

-- The commit of the result fails: the job is processed, counted under no outcome, and still running.
lost_result_run :
    let r = run_handler handlers "unknown" 61 false true 2 "news.ingest" end after_claim no_stats in
    r ≡ (none, after_claim, no_stats)
unfolding run_handler str_eq claim
lost_result_run = refl

run_once_run :
    (run_once handlers "unknown" 60 true true "w1" free alone table no_stats).2
    ≡ record { processed = 1; succeeded = 1; failed = 0; dead = 0; deferred = 0 }
unfolding run_once claim complete save str_eq
run_once_run = refl
