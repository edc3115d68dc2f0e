-- ===== src/Jobs/Runner.antt =====
-- internal/jobs/jobs.go: how a worker claims a job, runs it and settles it, and how a lost worker's
-- job is taken back. A worker whose context has ended writes nothing: `alive` is false.
use sound_dock.Base.{
  at_least, ℕ, ◌+◌, ℤ, pos, ltb_ℤ, eq_ℤ, ◌+ℤ◌, floor_zero, Bool, true, false, ◌&&◌, ◌||◌, Option,
  none, some, List, [], ◌∷◌, str_eq, ltb, leb, ◌==◌, if◌then◌else◌, any, keep,
}
use sound_dock.Jobs.Pools.{Pool, PoolConfig}
use sound_dock.Jobs.Rows.{
  Row, Table, Message, JobStatus, is_waiting, is_running, same_pool, has_id, find_row,
}
use sound_dock.Base.{update}
use sound_dock.Jobs.Queue.{runs}

-- The WHERE clause of `claimOnce`.
abbrev pub is_unlocked : ℕ → Option ℕ → Bool
is_unlocked now none = true
is_unlocked now (some u) = ltb u now

unfoldable pub is_runnable : ℕ → Pool → Row → Bool
is_runnable now pool r =
    same_pool r.pool pool
    && is_waiting r.status
    && leb r.run_after now
    && is_unlocked now r.locked_until

-- ORDER BY priority DESC, created_at.
abbrev pub goes_before : Row → Row → Bool
goes_before a b =
    ltb_ℤ b.priority a.priority || (eq_ℤ a.priority b.priority && ltb a.created_at b.created_at)

abbrev pub better : Row → Option Row → Row
better r none = r
better r (some q) = if goes_before q r then q else r

abbrev pub first_of : List Row → Option Row
first_of [] = none
first_of (r ∷ rows) = some (better r (first_of rows))

-- `lockSecs`.
abbrev pub lock_secs : PoolConfig → ℕ
lock_secs cfg = floor_zero (at_least (pos 60) (cfg.timeout_seconds +ℤ pos 45))

abbrev pub claimed : ℕ → ℕ × Pool → PoolConfig → Row → Row
claimed now worker cfg r = record r {
  status = JobStatus.running;
  locked_until = some (now + lock_secs cfg);
  locked_by = some worker;
  attempts = r.attempts + 1;
  started_at = some now;
}

abbrev pub next_job : ℕ → Pool → List Row → Option Row
next_job now pool rows = first_of (keep (is_runnable now pool) rows)

abbrev pub claim_row : ℕ → ℕ × Pool → PoolConfig → Option Row → Table → Table × Option Row
claim_row now worker cfg none t = (t, none)
claim_row now worker cfg (some job) t =
    (record t { rows = update (has_id job.id) (claimed now worker cfg) t.rows }, some job)

-- `claimOnce`, up to `runJob`: the job as it was selected.
unfoldable pub claim_once : ℕ → ℕ → Pool → PoolConfig → Table → Table × Option Row
claim_once now worker_id pool cfg t =
    claim_row now (worker_id, pool) cfg (next_job now pool t.rows) t

-- An error of a handler: its text, and what `errors.Is` finds in it.
pub record Failure : Type 0 where
  pub message : Message
  pub cancelled : Bool
  pub deadline : Bool
  pub terminal : Bool

abbrev pub plain_failure : Message → Failure
plain_failure m = record { message = m; cancelled = false; deadline = false; terminal = false }

-- The loop `wait` of `runJob`, on the ticks before the handler ends: the memory in use and whether
-- the row asks to cancel. `ended` is what the handler answers by itself, and `stopped` what it
-- answers once its context is cancelled.
abbrev pub await : ℤ → List (ℕ × Bool) → Option Failure → Option Failure → Option Failure
await max_rss [] ended stopped = ended
await max_rss ((rss, asked) ∷ ticks) ended stopped =
    let rest = await max_rss ticks ended stopped in
    if ltb_ℤ (pos 0) max_rss && ltb_ℤ max_rss (pos rss)
    then some (plain_failure (Message.memory_limit rss max_rss))
    else (if asked then stopped else rest)

-- The hooks of the runner.
pub data Hook : Type 0 where
  on_completed : ℕ → Hook
  on_failed : ℕ → Message → Hook

abbrev pub when_affected : Bool → Hook → List Hook
when_affected true h = h ∷ []
when_affected false h = []

-- The SET lists, and a write that only a live context makes.
abbrev pub completed_row : ℕ → Row → Row
completed_row now r = record r {
  status = JobStatus.completed;
  progress = pos 100;
  finished_at = some now;
  locked_until = none;
}

abbrev pub ended_row : JobStatus → ℕ → Message → Row → Row
ended_row status now m r = record r {
  status = status;
  last_error = some m;
  finished_at = some now;
  locked_until = none;
}

abbrev pub or_exhausted : Bool → ℕ → Row → Row
or_exhausted true now r = record r { status = JobStatus.failed; finished_at = some now }
or_exhausted false now r = record r { status = JobStatus.retry }

-- `retry`, or `failed` where the attempts are used up: `fail` clears `finished_at` on a retry, and
-- `reapStale` keeps it.
abbrev pub set_back : ℕ → Option Message → Row → Row
set_back now m r =
    or_exhausted (leb r.max_attempts r.attempts) now
      (record r { last_error = m; run_after = now + 15; locked_until = none })

abbrev pub failed_once : ℕ → Message → Row → Row
failed_once now m r = set_back now (some m) (record r { finished_at = none })

abbrev pub written : Bool → (Row → Bool) → (Row → Row) → Table → Table
written alive p f t = if alive then record t { rows = update p f t.rows } else t

abbrev pub affected : Bool → (Row → Bool) → Table → Bool
affected alive p t = alive && any p t.rows

abbrev pub is_failed : Option Row → Bool
is_failed none = false
is_failed (some r) = elim (r.status) [ JobStatus.failed ↦ true | _ ↦ false ]

-- `msg` of `fail`.
abbrev pub failure_message : PoolConfig → Failure → Message
failure_message cfg f = if f.deadline then Message.timed_out cfg.timeout_seconds else f.message

-- `fail`, and the hooks that it runs.
unfoldable pub fail : ℕ → Bool → PoolConfig → ℕ → Failure → Table → Table × List Hook
fail now alive cfg id f t =
    let m = failure_message cfg f in
    if f.terminal
    then (
      written alive (runs id) (ended_row JobStatus.failed now m) t,
      when_affected (affected alive (runs id) t) (Hook.on_failed id m),
    )
    else (let u = written alive (runs id) (failed_once now m) t in
        (u, when_affected (alive && is_failed (find_row id u.rows)) (Hook.on_failed id m)))

-- `status='running' AND locked_by LIKE 'worker%'`.
abbrev pub locked_by_worker : ℕ → Option (ℕ × Pool) → Bool
locked_by_worker worker_id none = false
locked_by_worker worker_id (some (w, pool)) = w == worker_id

abbrev pub runs_here : ℕ → ℕ → Row → Bool
runs_here worker_id id r = runs id r && locked_by_worker worker_id r.locked_by

-- `runJob` after the wait.
abbrev pub settle : ℕ → Bool → ℕ → PoolConfig → ℕ → Option Failure → Table → Table × List Hook
settle now alive worker_id cfg id none t = (
  written alive (runs id) (completed_row now) t,
  when_affected (affected alive (runs id) t) (Hook.on_completed id),
)
settle now alive worker_id cfg id (some f) t =
    if f.cancelled
    then (
      written alive (runs_here worker_id id) (ended_row JobStatus.cancelled now f.message) t,
      [],
    )
    else fail now alive cfg id f t

-- What a worker sees of a run: whether its type has a handler, the ticks, and the two answers.
pub record Course : Type 0 where
  pub handled : Bool
  pub ticks : List (ℕ × Bool)
  pub ended : Option Failure
  pub stopped : Option Failure

-- The write of `runJob` for a type without a handler, whatever the job's status is by then.
abbrev pub fail_unhandled : ℕ → Bool → ℕ → Table → Table
fail_unhandled now alive id t =
    written alive (has_id id) (ended_row JobStatus.failed now Message.no_handler) t

-- `runJob`.
unfoldable pub run_job : ℕ → Bool → ℕ → PoolConfig → ℕ → Course → Table → Table × List Hook
run_job now alive worker_id cfg id c t =
    if c.handled
    then settle now alive worker_id cfg id (await cfg.max_rss_mb c.ticks c.ended c.stopped) t
    else (fail_unhandled now alive id t, [])

-- `coalesce(nullif(last_error,''), 'timed out or worker lost')`.
abbrev pub lost_message : Option Message → Message
lost_message none = Message.worker_lost
lost_message (some (Message.text s)) = if str_eq s "" then Message.worker_lost else Message.text s
lost_message (some m) = m

abbrev pub before_now : ℕ → Option ℕ → Bool
before_now now none = false
before_now now (some u) = ltb u now

abbrev pub is_lost : ℕ → Row → Bool
is_lost now r = is_running r.status && before_now now r.locked_until

-- `reapStale`.
unfoldable pub reap_stale : ℕ → Table → Table
reap_stale now t = record t {
  rows = update (is_lost now) (λ r. set_back now (some (lost_message r.last_error)) r) t.rows;
}
