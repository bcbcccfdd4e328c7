-- ===== src/Jobs/Worker/Accounting.antt =====
-- What one round of the worker does to the job that it took, and to its own counters
-- (`run_once`, `_execute` and `_run_handler` of src/aidss/jobs/worker.py).
use stock_recommendation_be.Base.{
  ℕ, ◌+◌, ◌≡◌, Bool, true, false, Option, none, some, is_some, ◌⊎◌, All,
}
use stock_recommendation_be.Jobs.Queue.{Table, is_running, has_id}
use stock_recommendation_be.Jobs.Worker.{WorkerStats, Outcome, missing, failed_outcome}

-- No row of that identifier is running.
abbrev pub IsSettled : ℕ → Table → Type 0
IsSettled i t = All (λ e. has_id i e ≡ true → is_running e.status ≡ false) t

-- How many jobs were settled.
abbrev pub settled_jobs : WorkerStats → ℕ
settled_jobs s = s.succeeded + s.failed + s.dead + s.deferred

-- How a job may end: settled and counted, gone, not saved, or not recorded.
abbrev pub IsAccounted :
    (saves recovers : Bool)
    → ℕ
    → Table
    → WorkerStats
    → Option Outcome × Table × WorkerStats
    → Type 0
IsAccounted saves recovers i t s r =
    (IsSettled i r.1 × (settled_jobs r.2 ≡ settled_jobs s + 1) × (is_some r.0 ≡ true))
    ⊎ ((IsSettled i t × (r ≡ (some missing, t, s)))
        ⊎ (((saves ≡ false) × (r ≡ (none, t, s)))
            ⊎ ((recovers ≡ false)
                × (r.0 ≡ some failed_outcome)
                × (r.1 ≡ t)
                × (settled_jobs r.2 ≡ settled_jobs s + 1))))
