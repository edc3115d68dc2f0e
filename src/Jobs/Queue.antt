-- ===== src/Jobs/Queue.antt =====
-- internal/jobs/jobs.go: putting a job in the queue, cancelling it, retrying it and reading it.
use sound_dock.Base.{
  ℕ, ◌+◌, ℤ, pos, ltb_ℤ, Bool, true, false, not, ◌&&◌, Option, none, some, List, [], ◌∷◌, ◌++◌,
  String, str_eq, if◌then◌else◌, any, Result, ok, err, trim_space, ltb,
}
use sound_dock.Jobs.Pools.{Pool, PoolConfig, pool_for_type}
use sound_dock.Jobs.Rows.{
  Row, Table, Payload, Message, JobStatus, status_text, is_waiting, is_running, is_retryable,
  is_active, key_of, has_id, find_row, queue_depth, respects_index,
}
use sound_dock.Base.{update}
use sound_dock.Jobs.Cancel.{Extra, Elsewhere, allow_cancel, cancel_extra}

pub data JobError : Type 0 where
  pool_disabled queue_full : Pool → JobError
  bad_payload duplicate_key no_row not_cancellable not_retryable : JobError
  job_failed : Message → JobError

-- A payload as the caller gives it: nil, a map, or another value with what `json.Marshal` makes of
-- it, if it does: an object, or JSON that is none.
pub data Input : Type 0 where
  nothing : Input
  object : Payload → Input
  other : Option (Option Payload) → Input

abbrev empty_payload : Payload
empty_payload = record { coalesce_key = none; rest = 0 }

abbrev pub payload_of : Input → Option Payload
payload_of Input.nothing = some empty_payload
payload_of (Input.object p) = some p
payload_of (Input.other none) = none
payload_of (Input.other (some none)) = some empty_payload
payload_of (Input.other (some (some p))) = some p

abbrev pub with_key : String → Payload → Payload
with_key key p = if str_eq key "" then p else record p { coalesce_key = some key }

abbrev pub key_onto : String → Option Payload → Option Payload
key_onto key none = none
key_onto key (some p) = some (with_key key p)

-- `payloadWithCoalesceKey`.
abbrev pub payload_with_coalesce_key : Input → String → Option Payload
payload_with_coalesce_key input key = key_onto key (payload_of input)

-- `findCoalesced`: the oldest active row of the type with the key.
abbrev pub coalesces : String → String → Row → Bool
coalesces kind key r = str_eq r.kind kind && (is_active r.status && str_eq (key_of r) key)

abbrev older : Row → Option Row → Row
older r none = r
older r (some q) = if ltb q.created_at r.created_at then q else r

abbrev pub oldest : (Row → Bool) → List Row → Option Row
oldest p [] = none
oldest p (r ∷ rows) = let rest = oldest p rows in if p r then some (older r rest) else rest

unfoldable pub find_coalesced : String → String → List Row → Option Row
find_coalesced kind key rows = oldest (coalesces kind key) rows

-- A row with the columns' defaults.
abbrev pub new_row : ℕ → String → Payload → PoolConfig → ℕ → Row
new_row now kind payload cfg id = record {
  id = id;
  kind = kind;
  payload = payload;
  pool = pool_for_type kind;
  priority = cfg.priority;
  status = JobStatus.queued;
  progress = pos 0;
  attempts = 0;
  max_attempts = 5;
  last_error = none;
  cancel_requested = false;
  run_after = now;
  locked_until = none;
  locked_by = none;
  created_at = now;
  started_at = none;
  finished_at = none;
  result = none;
}

-- An INSERT of a row, with the UUID that it answers; the unique index may refuse it.
abbrev pub insert_row : Row → Table → Table × Result JobError ℕ
insert_row last t =
    let rows = t.rows ++ (last ∷ []) in
    if respects_index rows
    then (record { rows = rows; next_id = t.next_id + 1 }, ok t.next_id)
    else (t, err JobError.duplicate_key)

-- The INSERT of `enqueue`.
unfoldable pub insert : ℕ → String → Payload → PoolConfig → Table → Table × Result JobError ℕ
insert now kind payload cfg t = insert_row (new_row now kind payload cfg t.next_id) t

-- What the INSERT answers becomes the answer, unless a coalesced job turns up after an error.
abbrev pub after_insert : String → String → Table × Result JobError ℕ → Table × Result JobError ℕ
after_insert kind key (t, ok id) = (t, ok id)
after_insert kind key (t, err e) =
    if str_eq key ""
    then (t, err e)
    else elim (find_coalesced kind key t.rows) [ none ↦ (t, err e) | some r ↦ (t, ok r.id) ]

abbrev pub count_and_insert :
    ℕ → String → String → Payload → PoolConfig → Table → Table × Result JobError ℕ
count_and_insert now kind key payload cfg t =
    let pool = pool_for_type kind in
    if ltb_ℤ (pos (queue_depth pool t.rows)) cfg.queue_limit
    then after_insert kind key (insert now kind payload cfg t)
    else (t, err (JobError.queue_full pool))

abbrev pub or_coalesced : Option Row → Table → Table × Result JobError ℕ → Table × Result JobError ℕ
or_coalesced none t otherwise = otherwise
or_coalesced (some r) t otherwise = (t, ok r.id)

abbrev pub with_payload :
    ℕ → String → String → Option Payload → PoolConfig → Table → Table × Result JobError ℕ
with_payload now kind key none cfg t = (t, err JobError.bad_payload)
with_payload now kind key (some payload) cfg t =
    or_coalesced (if str_eq key "" then none else find_coalesced kind key t.rows) t
      (count_and_insert now kind key payload cfg t)

-- `enqueue`, which `Enqueue` calls with the empty key, and `EnqueueCoalesced` with a trimmed one.
unfoldable pub enqueue :
    ℕ → (Pool → PoolConfig) → String → String → Input → Table → Table × Result JobError ℕ
enqueue now configs kind key input t =
    let cfg = configs (pool_for_type kind) in
    if cfg.enabled
    then with_payload now kind key (payload_with_coalesce_key input key) cfg t
    else (t, err (JobError.pool_disabled (pool_for_type kind)))

unfoldable pub enqueue_coalesced :
    ℕ → (Pool → PoolConfig) → String → String → Input → Table → Table × Result JobError ℕ
unfolding enqueue
enqueue_coalesced now configs kind key input t = enqueue now configs kind (trim_space key) input t

unfoldable pub set_progress : ℕ → ℤ → Table → Table
set_progress id p t = record t { rows = update (has_id id) (λ r. record r { progress = p }) t.rows }

unfoldable pub set_result : ℕ → ℕ → Table → Table
set_result id v t = record t {
  rows = update (has_id id) (λ r. record r { result = some v }) t.rows;
}

-- The two UPDATEs of `RequestCancel`.
abbrev pub cancelled_row : ℕ → Row → Row
cancelled_row now r = record r {
  status = JobStatus.cancelled;
  cancel_requested = true;
  finished_at = some now;
}

abbrev pub waits : ℕ → Row → Bool
waits id r = has_id id r && is_waiting r.status

abbrev pub runs : ℕ → Row → Bool
runs id r = has_id id r && is_running r.status

unfoldable pub cancel_rows : ℕ → ℕ → List Row → List Row
cancel_rows now id rows =
    if any (waits id) rows
    then update (waits id) (cancelled_row now) rows
    else update (runs id) (λ r. record r { cancel_requested = true }) rows

-- `extra` of `RequestCancel` and `decorateJob`.
abbrev pub extra_of : Elsewhere → Row → Extra
extra_of e r =
    let extra = cancel_extra e r.kind r.id in
    if str_eq r.kind "stats.rebuild" && is_running r.status
    then record extra { stats_swap_started = true }
    else extra

-- `Cancellable`, of `decorateJob`.
abbrev pub cancellable : Elsewhere → Row → Bool
cancellable e r = allow_cancel r.kind (status_text r.status) r.progress (extra_of e r)

abbrev pub cancel_found :
    ℕ → Elsewhere → ℕ → Option Row → Table → Table × Result JobError (Unit {0})
cancel_found now e id none t = (t, err JobError.no_row)
cancel_found now e id (some r) t =
    if cancellable e r
    then (record t { rows = cancel_rows now id t.rows }, ok tt)
    else (t, err JobError.not_cancellable)

-- `RequestCancel`, no other transaction between its statements.
unfoldable pub request_cancel : ℕ → Elsewhere → ℕ → Table → Table × Result JobError (Unit {0})
request_cancel now e id t = cancel_found now e id (find_row id t.rows) t

abbrev pub requeued : ℕ → Row → Row
requeued now r = record r {
  status = JobStatus.queued;
  attempts = 0;
  last_error = none;
  cancel_requested = false;
  run_after = now;
  locked_until = none;
  finished_at = none;
}

abbrev pub retries : ℕ → Row → Bool
retries id r = has_id id r && is_retryable r.status

-- `Retry`; the unique index may refuse the UPDATE.
unfoldable pub retry_job : ℕ → ℕ → Table → Table × Result JobError (Unit {0})
retry_job now id t =
    let rows = update (retries id) (requeued now) t.rows in
    if not (respects_index rows)
    then (t, err JobError.duplicate_key)
    else (if any (retries id) t.rows
        then (record t { rows = rows }, ok tt)
        else (record t { rows = rows }, err JobError.not_retryable))

-- `Cancelled`: false where the row is not there.
abbrev pub requested : Option Row → Bool
requested none = false
requested (some r) = r.cancel_requested

abbrev pub is_cancelled : ℕ → Table → Bool
is_cancelled id t = requested (find_row id t.rows)

-- What a tick of `EnqueueWait` makes of the row; `none` waits for the next one.
abbrev pub failure_text : String → Option Message → Message
failure_text status none = Message.text status
failure_text status (some (Message.text s)) =
    if str_eq s "" then Message.text status else Message.text s
failure_text status (some m) = m

abbrev pub poll : Option Row → Option (Result JobError (Option ℕ))
poll none = some (err JobError.no_row)
poll (some r) = elim (r.status) [
  | JobStatus.completed ↦ some (ok r.result)
  | JobStatus.failed ↦ some (err (JobError.job_failed (failure_text "failed" r.last_error)))
  | JobStatus.cancelled ↦ some (err (JobError.job_failed (failure_text "cancelled" r.last_error)))
  | _ ↦ none
]
