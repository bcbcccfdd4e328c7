-- ===== src/Jobs/Queue/Lifecycle.antt =====
-- What holds of every row that the operations of src/aidss/jobs/queue.py reach, in any order and
-- by any number of workers, as long as a worker settles only a row that is running.
use stock_recommendation_be.Base.{
  ℕ, ◌+◌, ◌≤◌, ◌≡◌, refl, ap, str_eq, ◌≢◌, String, Bool, true, false, Option, none, some, [], ◌∷◌,
  arith, if◌then◌else◌, is_some, find, All,
}
use stock_recommendation_be.Base.Json.{Fields}
use stock_recommendation_be.Base.Sql.{update_where, All-update_where}
use stock_recommendation_be.Jobs.Queue.{
  JobStatus, succeeded, failed, dead, JobQueueEntry, Table, EnqueueRequest, is_running, has_id,
  key_is, violates, new_entry, still_pending, lock_for, complete, fail, defer, is_abandoned,
  release_abandoned,
}
use stock_recommendation_be.Jobs.Queue.Claims.{DistinctIds}
use stock_recommendation_be.Jobs.Queue.Dedup.{DistinctKeys}

abbrev pub is_terminal : JobStatus → Bool
is_terminal succeeded = true
is_terminal dead = true
is_terminal _ = false

-- A row is locked exactly while it runs, is finished exactly when it has a final status, and counts at
-- most `max_retries` failures until then, and at most one more; nothing gets the status FAILED.
pub record IsWellFormed (e : JobQueueEntry) : Type 0 where
  pub locked : is_some e.locked_at ≡ is_running e.status
  pub owned : is_some e.locked_by ≡ is_running e.status
  pub ended : is_some e.finished_at ≡ is_terminal e.status
  pub live_tries : is_terminal e.status ≡ false → e.retry_count ≤ e.max_retries
  pub tries : e.retry_count ≤ e.max_retries + 1
  pub never_failed : e.status ≢ failed

pub new_entry-IsWellFormed :
    (fresh now : ℕ) (q : EnqueueRequest) → IsWellFormed (new_entry fresh now q)
unfolding new_entry
new_entry-IsWellFormed fresh now q = ground arith

pub lock_for-IsWellFormed :
    (now : ℕ) (w : String) (i : ℕ) (e : JobQueueEntry)
    → still_pending i e ≡ true
    → IsWellFormed e
    → IsWellFormed (lock_for now w e)
unfolding still_pending lock_for
lock_for-IsWellFormed now w i e p h = ground arith

complete-IsWellFormed :
    (now : ℕ) (r : Option Fields) (e : JobQueueEntry)
    → is_running e.status ≡ true
    → IsWellFormed e
    → IsWellFormed (complete now r e)
unfolding complete
complete-IsWellFormed now r e p h = ground arith

fail-IsWellFormed :
    (now : ℕ) (error : String) (retryable : Bool) (e : JobQueueEntry)
    → is_running e.status ≡ true
    → IsWellFormed e
    → IsWellFormed (fail now error retryable e)
unfolding fail
fail-IsWellFormed now error retryable e p h = ground arith

defer-IsWellFormed :
    (until : ℕ) (reason : String) (e : JobQueueEntry)
    → is_running e.status ≡ true
    → IsWellFormed e
    → IsWellFormed (defer until reason e)
unfolding defer
defer-IsWellFormed until reason e p h = ground arith

pub release_abandoned-IsWellFormed :
    (now timeout : ℕ) (e : JobQueueEntry)
    → is_abandoned now timeout e ≡ true
    → IsWellFormed e
    → IsWellFormed (release_abandoned now e)
unfolding is_abandoned release_abandoned
release_abandoned-IsWellFormed now timeout e p h = ground arith

-- What a worker writes to the row that it holds.
pub data Settlement : Type 0 where
  completes : (now : ℕ) (result : Option Fields) → Settlement
  fails : (now : ℕ) (error : String) (retryable : Bool) → Settlement
  defers : (until : ℕ) (reason : String) → Settlement

pub settle : Settlement → JobQueueEntry → JobQueueEntry
settle (completes now r) e = complete now r e
settle (fails now error retryable) e = fail now error retryable e
settle (defers until reason) e = defer until reason e

pub settle-IsWellFormed :
    (o : Settlement) (e : JobQueueEntry)
    → is_running e.status ≡ true
    → IsWellFormed e
    → IsWellFormed (settle o e)
unfolding settle
settle-IsWellFormed (completes now r) e p h = complete-IsWellFormed now r e p h
settle-IsWellFormed (fails now error retryable) e p h = fail-IsWellFormed now error retryable e p h
settle-IsWellFormed (defers until reason) e p h = defer-IsWellFormed until reason e p h

-- An update that leaves identifiers and keys alone.
abbrev pub Keeps : (JobQueueEntry → JobQueueEntry) → Type 0
Keeps f = (e : JobQueueEntry) → ((f e).id ≡ e.id) × ((f e).dedup_key ≡ e.dedup_key)

pub settle-Keeps : (o : Settlement) → Keeps (settle o)
unfolding settle complete fail defer
settle-Keeps (completes now r) e = ground arith
settle-Keeps (fails now error retryable) e = ground arith
settle-Keeps (defers until reason) e = ground arith

pub lock_for-Keeps : (now : ℕ) (w : String) → Keeps (lock_for now w)
unfolding lock_for
lock_for-Keeps now w e = (refl, refl)

pub release_abandoned-Keeps : (now : ℕ) → Keeps (release_abandoned now)
unfolding release_abandoned
release_abandoned-Keeps now e = (refl, refl)

same_key :
    (k : String) (e e' : JobQueueEntry)
    → e'.dedup_key ≡ e.dedup_key
    → key_is (some k) e' ≡ key_is (some k) e
unfolding key_is
same_key k e e' h = ap (λ (o : Option String). elim o [ none ↦ false | some j ↦ str_eq j k ]) h

module _ (p : JobQueueEntry → Bool) (f : JobQueueEntry → JobQueueEntry) (keep : Keeps f) where
  kept :
      (e : JobQueueEntry)
      → let e' = (if p e then f e else e) in (e'.id ≡ e.id) × (e'.dedup_key ≡ e.dedup_key)
  kept e = ground (arith, keep e)

  find-update_where :
      (i : ℕ) (t : Table) → find (has_id i) t ≡ none → find (has_id i) (update_where p f t) ≡ none
  find-update_where i [] h = refl
  find-update_where i (e ∷ t) h = ground (arith, kept e, find-update_where i t)

  update_where-DistinctIds : (t : Table) → DistinctIds t → DistinctIds (update_where p f t)
  update_where-DistinctIds [] d = tt
  update_where-DistinctIds (e ∷ t) d =
      (rw ((kept e).0) (find-update_where e.id t d.0), update_where-DistinctIds t d.1)

  violates-update_where :
      (k : Option String) (t : Table) → violates k (update_where p f t) ≡ violates k t
  unfolding violates key_is
  violates-update_where none t = refl
  violates-update_where (some k) [] = refl
  violates-update_where (some k) (e ∷ t) =
      ground
        (arith, same_key k e (if p e then f e else e) (kept e).1, violates-update_where (some k) t)

  update_where-DistinctKeys : (t : Table) → DistinctKeys t → DistinctKeys (update_where p f t)
  update_where-DistinctKeys [] d = tt
  update_where-DistinctKeys (e ∷ t) d = (
    rw ((kept e).1) (rw (violates-update_where e.dedup_key t) d.0),
    update_where-DistinctKeys t d.1,
  )

-- The invariant of the whole table.
abbrev pub IsSound : Table → Type 0
IsSound t = All IsWellFormed t × DistinctIds t × DistinctKeys t

pub update_where-IsSound :
    (p : JobQueueEntry → Bool) (f : JobQueueEntry → JobQueueEntry)
    → Keeps f
    → (t : Table) → ((e : JobQueueEntry) → p e ≡ true → IsWellFormed e → IsWellFormed (f e))
    → IsSound t
    → IsSound (update_where p f t)
update_where-IsSound p f keep t h (w, i, k) = (
  All-update_where IsWellFormed p f t h w,
  update_where-DistinctIds p f keep t i,
  update_where-DistinctKeys p f keep t k,
)
