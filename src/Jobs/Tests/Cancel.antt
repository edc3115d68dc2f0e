-- ===== src/Jobs/Tests/Cancel.antt =====
-- A download that is cancelled before it runs and while it does, and the settings of a pool.
use sound_dock.Base.{◌≡◌, refl, ◌↔◌, pos, true, false, none, some, [], ◌∷◌, ok, any}
use sound_dock.Jobs.Pools.{Pool, PoolConfig, Configs, enforce, sanitize, all_pools, pool_for_type}
use sound_dock.Jobs.Bounds.{enforce_iff, starves}
use sound_dock.Jobs.Rows.{
  Row, Table, JobStatus, is_active, Message, find_row, respects_index, queue_depth,
}
use sound_dock.Base.{update}
use sound_dock.Jobs.Cancel.{allow_cancel}
use sound_dock.Jobs.Queue.{
  enqueue, insert, find_coalesced, request_cancel, cancelled_row, is_cancelled, cancellable,
}
use sound_dock.Jobs.Runner.{
  Failure, claim_once, run_job, plain_failure, is_runnable, claimed, ended_row,
}
use sound_dock.Jobs.Trace.{apply, apply_all}
use sound_dock.Jobs.Invariant.{claim_once-Orderly}
use sound_dock.Jobs.Attempts.{claims_in, never_written_off}
use sound_dock.Jobs.Cancelling.{cancel_waiting, cancel_running}
use sound_dock.Jobs.Tests.{
  queue, queue-Orderly, download_cfg, nowhere, download, finds_download, troubles,
}

may_cancel_download : cancellable nowhere download ≡ true
unfolding allow_cancel
may_cancel_download = refl

cancel_waiting_example :
    ((request_cancel 25 nowhere 1 queue).1 ≡ ok tt)
    × (find_row 1 (request_cancel 25 nowhere 1 queue).0.rows ≡ some (cancelled_row 25 download))
    × (claims_in troubles (request_cancel 25 nowhere 1 queue).0 1 ≡ 0)
    × ((q : Row) × (find_row 1 (apply_all troubles (request_cancel 25 nowhere 1 queue).0).rows
          ≡ some q)
        × (is_active q.status ≡ false)
        × (never_written_off troubles 1 ≡ true → q.status ≡ JobStatus.cancelled))
cancel_waiting_example =
    cancel_waiting 25 nowhere 1 queue download troubles queue-Orderly finds_download refl
      may_cancel_download refl

-- The download runs.
abbrev running_queue : Table
running_queue = (claim_once 30 5 Pool.acquisition download_cfg queue).0

abbrev running_download : Row
running_download = claimed 30 (5, Pool.acquisition) download_cfg download

finds_running : find_row 1 running_queue.rows ≡ some running_download
unfolding apply_all apply enqueue pool_for_type insert respects_index find_coalesced queue_depth
    claim_once is_runnable update
finds_running = refl

may_cancel_running : cancellable nowhere running_download ≡ true
unfolding allow_cancel
may_cancel_running = refl

abbrev stops : Failure
stops = record (plain_failure (Message.text "context canceled")) { cancelled = true }

cancel_running_example :
    find_row 1
      (run_job 36 true 5 download_cfg 1
        (record {
          handled = true;
          ticks = (100, is_cancelled 1 (request_cancel 35 nowhere 1 running_queue).0) ∷ [];
          ended = none;
          stopped = some stops;
        })
        (request_cancel 35 nowhere 1 running_queue).0).0.rows
    ≡ some (
        ended_row JobStatus.cancelled 36 stops.message
          (record running_download { cancel_requested = true }))
cancel_running_example =
    cancel_running 35 36 1 5 100 nowhere running_queue running_download download_cfg
      Pool.acquisition [] none stops
      (claim_once-Orderly 30 5 Pool.acquisition download_cfg queue queue-Orderly) finds_running refl
      refl may_cancel_running refl refl

-- A reserved pool that is asked to stop, and a queue without bounds.
abbrev greedy : PoolConfig
greedy = record download_cfg { enabled = false; queue_limit = pos 1000000 }

abbrev asks : Configs
asks Pool.search = some greedy
asks _ = none

enforce_iff_example :
    (enforce asks ≡ ok (sanitize asks)) ↔ (any (λ p. starves p (asks p)) all_pools ≡ false)
enforce_iff_example = enforce_iff asks
