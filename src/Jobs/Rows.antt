-- ===== src/Jobs/Rows.antt =====
-- The table jobs (migrations/0001_init.up.sql, 0011_worker_pools.up.sql, 0016_acquisition_intents.up.sql)
-- as internal/jobs reads and writes it. A UUID is a number, a time a number of seconds, NULL is
-- `none`. `updated_at`, which only the status page reads, is left out.
use sound_dock.Base.{
  ℕ, ℤ, Bool, true, false, not, ◌&&◌, ◌||◌, Option, none, some, List, [], ◌∷◌, String, str_eq, ◌==◌,
  if◌then◌else◌, any, keep, length,
}
use sound_dock.Jobs.Pools.{Pool}

pub data JobStatus : Type 0 where
  queued running retry completed failed cancelled : JobStatus

abbrev pub status_text : JobStatus → String
status_text JobStatus.queued = "queued"
status_text JobStatus.running = "running"
status_text JobStatus.retry = "retry"
status_text JobStatus.completed = "completed"
status_text JobStatus.failed = "failed"
status_text JobStatus.cancelled = "cancelled"

-- `last_error`; a text that `Sprintf` builds is kept with its numbers.
pub data Message : Type 0 where
  text : String → Message
  no_handler worker_lost : Message
  timed_out : ℤ → Message
  memory_limit : ℕ → ℤ → Message

-- A payload: its `coalesce_key` as a text, and its other fields, which the queue never reads.
pub record Payload : Type 0 where
  pub coalesce_key : Option String
  pub rest : ℕ

-- `locked_by` is the worker's UUID and its pool, and `result` is `none` for the default '{}'.
pub record Row : Type 0 where
  pub id : ℕ
  pub kind : String
  pub payload : Payload
  pub pool : Pool
  pub priority : ℤ
  pub status : JobStatus
  pub progress : ℤ
  pub attempts : ℕ
  pub max_attempts : ℕ
  pub last_error : Option Message
  pub cancel_requested : Bool
  pub run_after : ℕ
  pub locked_until : Option ℕ
  pub locked_by : Option (ℕ × Pool)
  pub created_at : ℕ
  pub started_at : Option ℕ
  pub finished_at : Option ℕ
  pub result : Option ℕ

pub record Table : Type 0 where
  pub rows : List Row
  pub next_id : ℕ

abbrev pub same_pool : Pool → Pool → Bool
same_pool Pool.playback Pool.playback = true
same_pool Pool.search Pool.search = true
same_pool Pool.acquisition Pool.acquisition = true
same_pool Pool.sync Pool.sync = true
same_pool Pool.maintenance Pool.maintenance = true
same_pool _ _ = false

-- `status IN ('queued','retry')`, `status='running'`, and `status IN ('failed','cancelled')`.
abbrev pub is_waiting : JobStatus → Bool
is_waiting JobStatus.queued = true
is_waiting JobStatus.retry = true
is_waiting _ = false

abbrev pub is_running : JobStatus → Bool
is_running JobStatus.running = true
is_running _ = false

abbrev pub is_retryable : JobStatus → Bool
is_retryable JobStatus.failed = true
is_retryable JobStatus.cancelled = true
is_retryable _ = false

-- `status IN ('queued','running','retry')`.
abbrev pub is_active : JobStatus → Bool
is_active s = is_waiting s || is_running s

-- `coalesce(payload->>'coalesce_key', '')`.
abbrev pub key_text : Option String → String
key_text none = ""
key_text (some k) = k

abbrev pub key_of : Row → String
key_of r = key_text r.payload.coalesce_key

abbrev pub has_id : ℕ → Row → Bool
has_id id r = r.id == id

-- `SELECT … WHERE id=$1`.
abbrev pub find_row : ℕ → List Row → Option Row
find_row id [] = none
find_row id (r ∷ rows) = if has_id id r then some r else find_row id rows

-- `SELECT count(*) … WHERE pool=$1 AND status IN ('queued','retry')`.
abbrev pub is_queued_in : Pool → Row → Bool
is_queued_in pool r = same_pool r.pool pool && is_waiting r.status

unfoldable pub queue_depth : Pool → List Row → ℕ
queue_depth pool rows = length (keep (is_queued_in pool) rows)

-- The partial unique index jobs_coalesce_key_active_uidx: two rows that it forbids.
abbrev pub clash : Row → Row → Bool
clash a b =
    is_active a.status
    && is_active b.status
    && not (str_eq (key_of a) "")
    && str_eq (key_of a) (key_of b)

unfoldable pub respects_index : List Row → Bool
respects_index [] = true
respects_index (r ∷ rows) = not (any (clash r) rows) && respects_index rows
