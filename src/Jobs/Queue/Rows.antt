-- ===== src/Jobs/Queue/Rows.antt =====
-- The rows of the job queue: JobQueueEntry of src/aidss/db/models/system.py, with the constants of
-- src/aidss/jobs/queue.py. `created_at` and `updated_at` are stamps that no operation of the queue
-- reads, and are left out.
use stock_recommendation_be.Base.{ℕ, String, Bool, true, false, Option, List, ◌==◌}
use stock_recommendation_be.Base.Json.{Fields}

pub data JobStatus : Type 0 where
  pending running succeeded failed dead : JobStatus

pub record JobQueueEntry : Type 0 where
  pub id : ℕ
  pub scheduler_job_id : Option ℕ
  pub job_type : String
  pub payload : Fields
  pub status : JobStatus
  pub retry_count : ℕ
  pub max_retries : ℕ
  pub last_error : Option String
  pub result : Option Fields
  pub available_at : ℕ
  pub locked_at : Option ℕ
  pub locked_by : Option String
  pub dedup_key : Option String
  pub started_at : Option ℕ
  pub finished_at : Option ℕ

abbrev pub Table : Type 0
Table = List JobQueueEntry

abbrev pub retry_base_seconds : ℕ
retry_base_seconds = 30

abbrev pub retry_max_seconds : ℕ
retry_max_seconds = 3600

abbrev pub lock_timeout_seconds : ℕ
lock_timeout_seconds = 900

abbrev pub is_pending : JobStatus → Bool
is_pending pending = true
is_pending _ = false

abbrev pub is_running : JobStatus → Bool
is_running running = true
is_running _ = false

abbrev pub has_id : ℕ → JobQueueEntry → Bool
has_id i e = e.id == i
