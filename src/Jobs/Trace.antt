-- ===== src/Jobs/Trace.antt =====
-- The sequences of statements on the table jobs: what the requests, the workers of every process and
-- the reaper do to it, in any order, and the handlers of other packages (external, httpapi, ingest, scan,
-- scapex). Each step carries its own time, worker and configuration. The one statement on the table that
-- is no step is the DELETE of old failed jobs by the log policies (retention/logs.go).
use sound_dock.Base.{
  ℕ, ◌+◌, ℤ, pos, at_least, at_most, Bool, false, Option, none, some, List, [], ◌∷◌, String, update,
}
use sound_dock.Jobs.Pools.{Pool, PoolConfig}
use sound_dock.Jobs.Rows.{Row, Table, Payload, Message, JobStatus, has_id}
use sound_dock.Jobs.Cancel.{Elsewhere}
use sound_dock.Jobs.Queue.{
  Input, enqueue, insert, insert_row, set_progress, set_result, request_cancel, cancel_rows,
  retry_job,
}
use sound_dock.Jobs.Runner.{Failure, claim_once, fail_unhandled, settle, reap_stale}

-- `late_insert` and `late_cancel` are the writes of an `enqueue` or a `RequestCancel` whose reads were
-- made on an earlier table. `settled` and `unhandled` are the ends of any run, also of one that was taken
-- back. `touched`, `postponed` and `noted` are what other packages write into a row (a lock and progress,
-- `run_after`, `last_error`), and `bare_insert` their INSERT of one.
pub data Op : Type 0 where
  enqueued : ℕ → (Pool → PoolConfig) → String → String → Input → Op
  late_insert : ℕ → String → Payload → PoolConfig → Op
  progressed : ℕ → ℤ → Op
  resulted : ℕ → ℕ → Op
  cancelled : ℕ → Elsewhere → ℕ → Op
  late_cancel : ℕ → ℕ → Op
  retried : ℕ → ℕ → Op
  claimed : ℕ → ℕ → Pool → PoolConfig → Op
  unhandled : ℕ → Bool → ℕ → Op
  settled : ℕ → Bool → ℕ → PoolConfig → ℕ → Option Failure → Op
  reaped : ℕ → Op
  touched : ℕ → ℕ → ℤ → Op
  postponed : ℕ → ℕ → Op
  noted : ℕ → Message → Op
  bare_insert : ℕ → String → Payload → Op

-- `touchJob` (external/sync.go), which a handler calls as long as it runs.
abbrev pub touched_row : ℕ → ℤ → Row → Row
touched_row now p r = record r {
  locked_until = some (now + 1800);
  progress = at_most (pos 99) (at_least (pos 0) p);
}

-- The INSERTs of scan/opts.go and scapex/dock.go, with the columns' defaults.
abbrev pub bare_row : ℕ → String → Payload → ℕ → Row
bare_row now kind payload id = record {
  id = id;
  kind = kind;
  payload = payload;
  pool = Pool.maintenance;
  priority = pos 0;
  status = JobStatus.queued;
  progress = pos 0;
  attempts = 0;
  max_attempts = 5;
  last_error = none;
  cancel_requested = false;
  run_after = now;
  locked_until = none;
  locked_by = none;
  created_at = now;
  started_at = none;
  finished_at = none;
  result = none;
}

unfoldable pub apply : Op → Table → Table
apply (Op.enqueued now configs kind key input) t = (enqueue now configs kind key input t).0
apply (Op.late_insert now kind payload cfg) t = (insert now kind payload cfg t).0
apply (Op.progressed id p) t = set_progress id p t
apply (Op.resulted id v) t = set_result id v t
apply (Op.cancelled now e id) t = (request_cancel now e id t).0
apply (Op.late_cancel now id) t = record t { rows = cancel_rows now id t.rows }
apply (Op.retried now id) t = (retry_job now id t).0
apply (Op.claimed now worker pool cfg) t = (claim_once now worker pool cfg t).0
apply (Op.unhandled now alive id) t = fail_unhandled now alive id t
apply (Op.settled now alive worker cfg id f) t = (settle now alive worker cfg id f t).0
apply (Op.reaped now) t = reap_stale now t
apply (Op.touched now id p) t = record t { rows = update (has_id id) (touched_row now p) t.rows }
apply (Op.postponed id at) t = record t {
  rows = update (has_id id) (λ r. record r { run_after = at }) t.rows;
}
apply (Op.noted id m) t = record t {
  rows = update (has_id id) (λ r. record r { last_error = some m }) t.rows;
}
apply (Op.bare_insert now kind payload) t = (insert_row (bare_row now kind payload t.next_id) t).0

unfoldable pub apply_all : List Op → Table → Table
apply_all [] t = t
apply_all (op ∷ ops) t = apply_all ops (apply op t)
