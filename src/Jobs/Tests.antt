-- ===== src/Jobs/Tests.antt =====
-- Jobs of two pools: a download with a key, a scan, and workers.
mod Cancel
use sound_dock.Base.{
  ◌+◌, ◌≤◌, ◌≡◌, refl, ◌⊎◌, ◌↔◌, pos, true, false, none, some, List, [], ◌∷◌, arith, ok, All,
  length, keep, any,
}
use sound_dock.Jobs.Pools.{
  Pool, PoolConfig, default_config, Configs, enforce, sanitize, all_pools, clamp, pool_for_type,
}
use sound_dock.Jobs.Bounds.{InRange, clamp_fits, enforce_iff, starves}
use sound_dock.Jobs.Rows.{
  Row, Table, Payload, JobStatus, Message, find_row, respects_index, queue_depth, has_id, is_active,
}
use sound_dock.Base.{update}
use sound_dock.Jobs.Cancel.{Elsewhere, allow_cancel}
use sound_dock.Jobs.Queue.{
  Input, enqueue, insert, find_coalesced, enqueue_coalesced, request_cancel, is_cancelled,
  cancellable,
}
use sound_dock.Jobs.Runner.{
  Failure, claim_once, run_job, plain_failure, is_runnable, goes_before, fail, reap_stale, claimed,
  ended_row,
}
use sound_dock.Jobs.Trace.{Op, apply, apply_all}
use sound_dock.Jobs.Orderly.{Orderly}
use sound_dock.Jobs.Invariant.{apply_all-Orderly, claim_once-Orderly}
use sound_dock.Jobs.Kept.{request_cancel-Orderly}
use sound_dock.Jobs.Claims.{IsNoBefore, ClaimsOnly, claim_once-first}
use sound_dock.Jobs.Drain.{RunsIf, claim_times, claim_times-drains}
use sound_dock.Jobs.Moves.{Carries, Moved, claims, requeues, writes_off}
use sound_dock.Jobs.Attempts.{
  apply-Moved, claims_in, never_requeued, never_written_off, claims_in-le, over_for_good,
}
use sound_dock.Jobs.Coalesce.{Inserts, enqueue-cases}
use sound_dock.Jobs.Coalesce.Twice.{enqueue_coalesced_twice}
use sound_dock.Jobs.Cancelling.{cancel_waiting, cancel_running}

abbrev pub nothing_yet : Table
nothing_yet = record { rows = []; next_id = 1 }

nothing_yet-Orderly : Orderly nothing_yet
nothing_yet-Orderly = record { sound = tt; ids_apart = tt; fresh = tt; keys_apart = tt }

abbrev pub song : Input
song = Input.object (record { coalesce_key = none; rest = 7 })

-- A download at 10, a scan at 20.
abbrev pub two : List Op
two =
    Op.enqueued 10 default_config "scapex.fetch" "song" song
    ∷ Op.enqueued 20 default_config "library.scan" "" Input.nothing
    ∷ []

abbrev pub queue : Table
queue = apply_all two nothing_yet

pub queue-Orderly : Orderly queue
queue-Orderly = apply_all-Orderly two nothing_yet nothing_yet-Orderly

abbrev pub download_cfg : PoolConfig
download_cfg = default_config Pool.acquisition

abbrev pub nowhere : Elsewhere
nowhere = record { intents = λ id. []; retention_runs = λ id. [] }

-- The selected download, and a runner that claims it.
abbrev pub download : Row
download = record {
  id = 1;
  kind = "scapex.fetch";
  payload = record { coalesce_key = some "song"; rest = 7 };
  pool = Pool.acquisition;
  priority = pos 40;
  status = JobStatus.queued;
  progress = pos 0;
  attempts = 0;
  max_attempts = 5;
  last_error = none;
  cancel_requested = false;
  run_after = 10;
  locked_until = none;
  locked_by = none;
  created_at = 10;
  started_at = none;
  finished_at = none;
  result = none;
}

pub finds_download : find_row 1 queue.rows ≡ some download
unfolding apply_all apply enqueue pool_for_type insert respects_index find_coalesced queue_depth
finds_download = refl

-- The download is claimed and fails, is claimed again, is lost, and is claimed a third time.
abbrev pub broken : Failure
broken = plain_failure (Message.text "no space left")

abbrev pub troubles : List Op
troubles =
    Op.claimed 30 5 Pool.acquisition download_cfg
    ∷ Op.settled 40 true 5 download_cfg 1 (some broken)
    ∷ Op.claimed 60 6 Pool.acquisition download_cfg
    ∷ Op.reaped 1000
    ∷ Op.claimed 1015 5 Pool.acquisition download_cfg
    ∷ []

three_claims : claims_in troubles queue 1 ≡ 3
unfolding apply_all apply enqueue pool_for_type insert respects_index find_coalesced queue_depth
    claims_in claims claim_once is_runnable update fail reap_stale
three_claims = refl

apply_all-Orderly_example : Orderly (apply_all troubles queue)
apply_all-Orderly_example = apply_all-Orderly troubles queue queue-Orderly

claims_in-le_example :
    All
      (λ r.
        never_requeued troubles r.id ≡ true
        → claims_in troubles queue r.id + r.attempts ≤ r.max_attempts)
      queue.rows
claims_in-le_example = claims_in-le troubles queue queue-Orderly

-- A scan that nobody handles, a lock that comes late, and a late failure of the download.
abbrev pub late_writes : List Op
late_writes =
    Op.claimed 30 5 Pool.acquisition download_cfg
    ∷ Op.reaped 1000
    ∷ Op.touched 1001 1 (pos 40)
    ∷ Op.unhandled 1002 true 1
    ∷ Op.touched 1003 1 (pos 50)
    ∷ Op.bare_insert 1004 "library.scan" (record { coalesce_key = none; rest = 0 })
    ∷ []

fails_late :
    (q : Row) × (find_row 1 (apply_all late_writes queue).rows ≡ some q)
    × (q.status ≡ JobStatus.failed)
    × (q.locked_until ≡ some 2803)
unfolding apply_all apply enqueue pool_for_type insert respects_index find_coalesced queue_depth
    claim_once is_runnable update reap_stale
fails_late = (_, refl, refl, refl)

late_writes-Orderly : Orderly (apply_all late_writes queue)
late_writes-Orderly = apply_all-Orderly late_writes queue queue-Orderly

apply-Moved_example :
    Carries
      (Moved
        (claims (Op.claimed 30 5 Pool.acquisition download_cfg) queue)
        (requeues (Op.claimed 30 5 Pool.acquisition download_cfg))
        (writes_off (Op.claimed 30 5 Pool.acquisition download_cfg)))
      queue.rows
      (apply (Op.claimed 30 5 Pool.acquisition download_cfg) queue).rows
apply-Moved_example =
    apply-Moved (Op.claimed 30 5 Pool.acquisition download_cfg) queue queue-Orderly

-- The queue once the download is cancelled.
abbrev cancelled_queue : Table
cancelled_queue = (request_cancel 25 nowhere 1 queue).0

cancelled_queue-Orderly : Orderly cancelled_queue
cancelled_queue-Orderly = request_cancel-Orderly 25 nowhere 1 queue queue-Orderly

over_for_good_example :
    Carries
      (λ r q.
        (q.id ≡ r.id)
        × (is_active r.status ≡ false
            → never_requeued troubles r.id ≡ true
            → (is_active q.status ≡ false)
              × (claims_in troubles cancelled_queue r.id ≡ 0)
              × (never_written_off troubles r.id ≡ true → q.status ≡ r.status)))
      cancelled_queue.rows
      (apply_all troubles cancelled_queue).rows
over_for_good_example = over_for_good troubles cancelled_queue cancelled_queue-Orderly

claim_once-first_example :
    ((claim_once 30 5 Pool.acquisition download_cfg queue ≡ (queue, none))
      × All (λ r. is_runnable 30 Pool.acquisition r ≡ false) queue.rows)
    ⊎ ((j : Row) × ((claim_once 30 5 Pool.acquisition download_cfg queue).1 ≡ some j)
        × (is_runnable 30 Pool.acquisition j ≡ true)
        × All (λ r. is_runnable 30 Pool.acquisition r ≡ true → IsNoBefore r j) queue.rows
        × Carries
            (ClaimsOnly 30 (5, Pool.acquisition) download_cfg j)
            queue.rows
            (claim_once 30 5 Pool.acquisition download_cfg queue).0.rows)
claim_once-first_example = claim_once-first 30 5 Pool.acquisition download_cfg queue

one_to_run : length (keep (is_runnable 30 Pool.acquisition) queue.rows) ≤ 1
unfolding apply_all apply enqueue pool_for_type insert respects_index find_coalesced queue_depth
    is_runnable
one_to_run = omega arith

claim_times-drains_example :
    Carries
      (RunsIf 30 Pool.acquisition)
      queue.rows
      (claim_times 1 30 5 Pool.acquisition download_cfg queue).rows
    × All
        (λ r. is_runnable 30 Pool.acquisition r ≡ false)
        (claim_times 1 30 5 Pool.acquisition download_cfg queue).rows
claim_times-drains_example =
    claim_times-drains 1 30 5 Pool.acquisition download_cfg queue one_to_run

first_download :
    enqueue_coalesced 10 default_config "scapex.fetch" " song" song nothing_yet
    ≡ (record { rows = download ∷ []; next_id = 2 }, ok 1)
unfolding enqueue_coalesced enqueue pool_for_type insert respects_index find_coalesced queue_depth
first_download = refl

acquisition_on : (default_config (pool_for_type "scapex.fetch")).enabled ≡ true
unfolding pool_for_type
acquisition_on = refl

enqueue_coalesced_twice_example :
    enqueue_coalesced 90 default_config "scapex.fetch" " song" Input.nothing
      (record { rows = download ∷ []; next_id = 2 })
    ≡ (record { rows = download ∷ []; next_id = 2 }, ok 1)
enqueue_coalesced_twice_example =
    enqueue_coalesced_twice 10 90 default_config default_config "scapex.fetch" " song" song
      Input.nothing (record { coalesce_key = none; rest = 0 }) nothing_yet
      (record { rows = download ∷ []; next_id = 2 }) 1 refl first_download acquisition_on refl
