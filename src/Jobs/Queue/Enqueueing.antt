-- ===== src/Jobs/Queue/Enqueueing.antt =====
-- `enqueue` of src/aidss/jobs/queue.py, in a session that may lose a race to another worker.
use stock_recommendation_be.Base.{
  ◌||◌, ℕ, String, Bool, true, false, not, Option, none, some, [], ◌∷◌, ◌++◌, if◌then◌else◌, str_eq,
  is_some, get_or, any, find,
}
use stock_recommendation_be.Base.Json.{Fields, end}
use stock_recommendation_be.Jobs.Queue.Rows.{pending, JobQueueEntry, Table}

-- A session sees `working`: what is committed, with its own uncommitted writes. A rollback goes
-- back to `committed`.
pub record Session : Type 0 where
  pub committed : Table
  pub working : Table

pub record EnqueueRequest : Type 0 where
  pub job_type : String
  pub payload : Option Fields
  pub dedup_key : Option String
  pub available_at : Option ℕ
  pub max_retries : ℕ
  pub scheduler_job_id : Option ℕ

pub record EnqueueResult : Type 0 where
  pub job_id : ℕ
  pub created : Bool

pub deduplicated : EnqueueResult → Bool
deduplicated r = not r.created

pub data Enqueued : Type 0 where
  returned : EnqueueResult → Enqueued
  integrity_error : Enqueued

-- `if dedup_key:` is false of `None` and of the empty text.
unfoldable pub is_key : Option String → Bool
is_key none = false
is_key (some k) = not (str_eq k "")

-- `dedup_key == k`; with `None` SQLAlchemy writes `IS NULL`.
unfoldable pub key_is : Option String → JobQueueEntry → Bool
key_is none e = not (is_some e.dedup_key)
key_is (some k) e = elim e.dedup_key [ none ↦ false | some j ↦ str_eq j k ]

-- The unique index: NULL conflicts with nothing.
unfoldable pub violates : Option String → Table → Bool
unfolding key_is
violates none t = false
violates (some k) t = any (key_is (some k)) t

-- The foreign key: `jobs` holds of the identifiers of SchedulerJob; NULL refers to nothing.
unfoldable pub dangles : (ℕ → Bool) → Option ℕ → Bool
dangles jobs none = false
dangles jobs (some i) = not (jobs i)

unfoldable pub new_entry : ℕ → ℕ → EnqueueRequest → JobQueueEntry
new_entry fresh now q = record {
  id = fresh;
  scheduler_job_id = q.scheduler_job_id;
  job_type = q.job_type;
  payload = get_or end q.payload;
  status = pending;
  retry_count = 0;
  max_retries = q.max_retries;
  last_error = none;
  result = none;
  available_at = get_or now q.available_at;
  locked_at = none;
  locked_by = none;
  dedup_key = q.dedup_key;
  started_at = none;
  finished_at = none;
}

-- Other transactions commit rows, which this session sees from then on.
unfoldable pub others_commit : Table → Session → Session
others_commit rows s = record { committed = s.committed ++ rows; working = s.working ++ rows }

unfoldable pub rollback : Session → Session
rollback s = record s { working = s.committed }

-- `session.add(entry)` and `session.flush()`, with the handler of `IntegrityError`, which the unique
-- index and the foreign key raise alike.
unfoldable pub add_and_flush : (ℕ → Bool) → ℕ → ℕ → EnqueueRequest → Session → Enqueued × Session
unfolding violates dangles key_is new_entry rollback
add_and_flush jobs fresh now q s =
    let undone = rollback s in
    if violates q.dedup_key s.working || dangles jobs q.scheduler_job_id
    then elim (find (key_is q.dedup_key) undone.working) [
      | none ↦ (integrity_error, undone)
      | some e ↦ (returned (record { job_id = e.id; created = false }), undone)
    ]
    else (
      returned (record { job_id = fresh; created = true }),
      record s { working = s.working ++ new_entry fresh now q ∷ [] },
    )

-- `race` is what other workers commit between the check and the flush.
unfoldable pub enqueue : (ℕ → Bool) → ℕ → ℕ → Table → EnqueueRequest → Session → Enqueued × Session
unfolding is_key key_is add_and_flush others_commit
enqueue jobs fresh now race q s =
    elim (if is_key q.dedup_key then find (key_is q.dedup_key) s.working else none) [
      | some e ↦ (returned (record { job_id = e.id; created = false }), s)
      | none ↦ add_and_flush jobs fresh now q (others_commit race s)
    ]
