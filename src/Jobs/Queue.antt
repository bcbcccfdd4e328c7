-- ===== src/Jobs/Queue.antt =====
-- The job queue: src/aidss/jobs/queue.py. Instants are seconds since the epoch. `datetime.now(UTC)`,
-- fresh identifiers and the worker's name are arguments.
pub mod Rows
pub mod Enqueueing
pub mod Backoff
pub mod Selection
pub mod Claims
pub mod Dedup
pub mod Lifecycle
pub mod Reach
use stock_recommendation_be.Base.{
  ℕ, zero, suc, ◌+◌, ◌-◌, ◌*◌, ◌^◌, min, String, Bool, false, not, ◌&&◌, ◌||◌, Option, none, some,
  [], ◌∷◌, ltb, leb, ◌==◌, if◌then◌else◌, text_append, get_or, find,
}
use stock_recommendation_be.Base.Json.{Fields, end}
use stock_recommendation_be.Base.Sql.{update_where, rowcount}
pub use stock_recommendation_be.Jobs.Queue.Rows.{
  JobStatus, pending, running, succeeded, failed, dead, JobQueueEntry, Table, retry_base_seconds,
  retry_max_seconds, lock_timeout_seconds, is_pending, is_running, has_id,
}
pub use stock_recommendation_be.Jobs.Queue.Enqueueing.{
  Session, EnqueueRequest, EnqueueResult, deduplicated, Enqueued, returned, integrity_error,
}
unfoldable pub use stock_recommendation_be.Jobs.Queue.Enqueueing.{
  is_key, key_is, violates, dangles, new_entry, others_commit, rollback, add_and_flush, enqueue,
}

-- `text[:n]`
take_text : ℕ → String → String
take_text zero s = String.[]
take_text (suc n) String.[] = String.[]
take_text (suc n) (String.◌∷◌ c s) = String.◌∷◌ c (take_text n s)

unfoldable pub is_claimable : ℕ → JobQueueEntry → Bool
is_claimable now e = is_pending e.status && leb e.available_at now

-- The row that comes first by `available_at`.
unfoldable pub earlier : JobQueueEntry → Option JobQueueEntry → JobQueueEntry
earlier x none = x
earlier x (some y) = if leb x.available_at y.available_at then x else y

-- The SELECT of `claim`. `skip` holds of the rows that another transaction has locked (nothing,
-- where the dialect has no SKIP LOCKED).
unfoldable pub select_next : ℕ → (ℕ → Bool) → Table → Option JobQueueEntry
unfolding is_claimable earlier
select_next now skip [] = none
select_next now skip (x ∷ t) =
    let rest = select_next now skip t in
    if is_claimable now x && not (skip x.id) then some (earlier x rest) else rest

-- The guard of the UPDATE: the row, if it is still pending.
unfoldable pub still_pending : ℕ → JobQueueEntry → Bool
still_pending i e = has_id i e && is_pending e.status

unfoldable pub lock_for : ℕ → String → JobQueueEntry → JobQueueEntry
lock_for now worker e = record e {
  status = running;
  locked_at = some now;
  locked_by = some worker;
  started_at = some now;
}

-- The guarded UPDATE of `claim`, and the refreshed row.
unfoldable pub claim_row : ℕ → String → ℕ → Table → Option JobQueueEntry × Table
unfolding still_pending lock_for
claim_row now worker i seen =
    let updated = update_where (still_pending i) (lock_for now worker) seen in
    if rowcount (still_pending i) seen == 0
    then (none, seen)
    else (find (has_id i) updated, updated)

-- `between` is what other workers commit between the SELECT and the UPDATE.
unfoldable pub claim :
    ℕ → String → (ℕ → Bool) → (Table → Table) → Table → Option JobQueueEntry × Table
unfolding select_next claim_row
claim now worker skip between t = elim (select_next now skip t) [
  | none ↦ (none, t)
  | some e ↦ claim_row now worker e.id (between t)
]

unfoldable pub complete : ℕ → Option Fields → JobQueueEntry → JobQueueEntry
complete now result e = record e {
  status = succeeded;
  result = some (get_or end result);
  finished_at = some now;
  locked_at = none;
  locked_by = none;
  last_error = none;
}

-- `attempt - 1` on ℕ stops at 0, which is the `max(0, attempt - 1)` of the source.
unfoldable pub retry_delay : ℕ → ℕ
retry_delay attempt = min (retry_base_seconds * 2 ^ (attempt - 1)) retry_max_seconds

unfoldable pub fail : ℕ → String → Bool → JobQueueEntry → JobQueueEntry
unfolding take_text
fail now error retryable e =
    let counted = record e {
      retry_count = e.retry_count + 1;
      last_error = some (take_text 4000 error);
      locked_at = none;
      locked_by = none;
    } in
    if not retryable || ltb counted.max_retries counted.retry_count
    then record counted { status = dead; finished_at = some now }
    else record counted { status = pending; available_at = now + retry_delay counted.retry_count }

unfoldable pub defer : ℕ → String → JobQueueEntry → JobQueueEntry
unfolding take_text text_append
defer until reason e = record e {
  status = pending;
  available_at = until;
  locked_at = none;
  locked_by = none;
  started_at = none;
  last_error = some (take_text 4000 (text_append "deferred: " reason));
}

-- The flush of one changed row.
unfoldable pub save : ℕ → (JobQueueEntry → JobQueueEntry) → Table → Table
save i f t = update_where (has_id i) f t

-- `RUNNING and locked_at < now - timeout`; NULL compares as false.
unfoldable pub is_abandoned : ℕ → ℕ → JobQueueEntry → Bool
is_abandoned now timeout e =
    is_running e.status && elim e.locked_at [ none ↦ false | some l ↦ ltb (l + timeout) now ]

unfoldable pub release_abandoned : ℕ → JobQueueEntry → JobQueueEntry
release_abandoned now e = record e {
  status = pending;
  locked_at = none;
  locked_by = none;
  available_at = now;
  last_error = some "reclaimed after the worker holding it stopped responding";
}

unfoldable pub reclaim_abandoned : ℕ → ℕ → Table → ℕ × Table
unfolding is_abandoned release_abandoned
reclaim_abandoned now timeout t = (
  rowcount (is_abandoned now timeout) t,
  update_where (is_abandoned now timeout) (release_abandoned now) t,
)

-- How many rows have each status.
pub record QueueStats : Type 0 where
  pub pending_jobs : ℕ
  pub running_jobs : ℕ
  pub succeeded_jobs : ℕ
  pub failed_jobs : ℕ
  pub dead_jobs : ℕ

pub count_status : JobStatus → QueueStats → QueueStats
count_status pending c = record c { pending_jobs = c.pending_jobs + 1 }
count_status running c = record c { running_jobs = c.running_jobs + 1 }
count_status succeeded c = record c { succeeded_jobs = c.succeeded_jobs + 1 }
count_status failed c = record c { failed_jobs = c.failed_jobs + 1 }
count_status dead c = record c { dead_jobs = c.dead_jobs + 1 }

tally : QueueStats → Table → QueueStats
unfolding count_status
tally c [] = c
tally c (e ∷ t) = tally (count_status e.status c) t

pub stats : Table → QueueStats
unfolding tally
stats t =
    tally
      (record {
        pending_jobs = 0;
        running_jobs = 0;
        succeeded_jobs = 0;
        failed_jobs = 0;
        dead_jobs = 0;
      })
      t
