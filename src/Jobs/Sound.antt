-- ===== src/Jobs/Sound.antt =====
-- The invariant of one row of the table jobs, for each SET list of internal/jobs.
use sound_dock.Base.{
  ℕ, ◌<◌, ◌≤◌, ◌≡◌, refl, ℤ, Bool, true, false, not, Option, is_some, String, arith,
}
use sound_dock.Jobs.Pools.{Pool, PoolConfig}
use sound_dock.Jobs.Rows.{Row, Payload, JobStatus, is_waiting, is_running, is_active, Message}
use sound_dock.Jobs.Queue.{cancelled_row, requeued, new_row}
use sound_dock.Jobs.Trace.{touched_row, bare_row}
use sound_dock.Jobs.Runner.{claimed, completed_row, ended_row, failed_once, set_back}

-- A running job has a lock and has been claimed; a job has an end just when
-- it is completed, failed or cancelled; and one that waits has attempts left.
pub record IsSound (r : Row) : Type 0 where
  pub locked : is_running r.status ≡ true → is_some r.locked_until ≡ true
  pub ended : is_some r.finished_at ≡ not (is_active r.status)
  pub within : r.attempts ≤ r.max_attempts
  pub limited : 0 < r.max_attempts
  pub waiting_left : is_waiting r.status ≡ true → r.attempts < r.max_attempts
  pub running_tried : is_running r.status ≡ true → 0 < r.attempts

pub new_row-IsSound :
    (now : ℕ) (kind : String) (payload : Payload) (cfg : PoolConfig) (id : ℕ)
    → IsSound (new_row now kind payload cfg id)
new_row-IsSound now kind payload cfg id = record {
  locked = ground arith;
  ended = refl;
  within = omega arith;
  limited = omega arith;
  waiting_left = λ h. omega arith;
  running_tried = ground arith;
}

pub claimed-IsSound :
    (now : ℕ) (worker : ℕ × Pool) (cfg : PoolConfig) (r : Row)
    → is_waiting r.status ≡ true
    → IsSound r
    → IsSound (claimed now worker cfg r)
claimed-IsSound now worker cfg r w s = record {
  locked = ground arith;
  ended = ground (arith, s.ended);
  within = ground (arith, s.waiting_left w);
  limited = s.limited;
  waiting_left = ground arith;
  running_tried = ground arith;
}

pub completed-IsSound : (now : ℕ) (r : Row) → IsSound r → IsSound (completed_row now r)
completed-IsSound now r s = record {
  locked = ground arith;
  ended = refl;
  within = s.within;
  limited = s.limited;
  waiting_left = ground arith;
  running_tried = ground arith;
}

-- `failed` or `cancelled`.
pub ended-IsSound :
    (status : JobStatus) (now : ℕ) (m : Message) (r : Row)
    → is_active status ≡ false
    → IsSound r
    → IsSound (ended_row status now m r)
ended-IsSound status now m r h s = record {
  locked = ground arith;
  ended = ground arith;
  within = s.within;
  limited = s.limited;
  waiting_left = ground arith;
  running_tried = ground arith;
}

pub set_back-IsSound :
    (now : ℕ) (m : Option Message) (r : Row)
    → is_running r.status ≡ true
    → IsSound r
    → IsSound (set_back now m r)
set_back-IsSound now m r run s = record {
  locked = ground (arith, s.locked);
  ended = ground (arith, s.ended);
  within = ground (arith, s.within);
  limited = ground (arith, s.limited);
  waiting_left = ground (arith, s.within);
  running_tried = ground arith;
}

pub failed_once-IsSound :
    (now : ℕ) (m : Message) (r : Row)
    → is_running r.status ≡ true
    → IsSound r
    → IsSound (failed_once now m r)
failed_once-IsSound now m r run s = record {
  locked = ground (arith, s.locked);
  ended = ground (arith, s.ended);
  within = ground (arith, s.within);
  limited = ground (arith, s.limited);
  waiting_left = ground (arith, s.within);
  running_tried = ground arith;
}

pub cancelled-IsSound :
    (now : ℕ) (r : Row) → is_waiting r.status ≡ true → IsSound r → IsSound (cancelled_row now r)
cancelled-IsSound now r w s = record {
  locked = ground (arith, s.locked);
  ended = refl;
  within = s.within;
  limited = s.limited;
  waiting_left = ground arith;
  running_tried = ground arith;
}

pub requeued-IsSound : (now : ℕ) (r : Row) → IsSound r → IsSound (requeued now r)
requeued-IsSound now r s = record {
  locked = ground arith;
  ended = refl;
  within = omega arith;
  limited = s.limited;
  waiting_left = λ h. s.limited;
  running_tried = ground arith;
}

-- The columns that the invariant does not read, and a statement writes alone.
pub unread-IsSound :
    (r : Row) (asked : Bool) (p : ℤ) (v : Option ℕ)
    → IsSound r
    → IsSound (record r { cancel_requested = asked; progress = p; result = v })
unread-IsSound r asked p v s = record {
  locked = s.locked;
  ended = s.ended;
  within = s.within;
  limited = s.limited;
  waiting_left = s.waiting_left;
  running_tried = s.running_tried;
}

-- A late lock, and the columns that other packages write.
pub touched-IsSound : (now : ℕ) (p : ℤ) (r : Row) → IsSound r → IsSound (touched_row now p r)
touched-IsSound now p r s = record {
  locked = λ h. refl;
  ended = s.ended;
  within = s.within;
  limited = s.limited;
  waiting_left = s.waiting_left;
  running_tried = s.running_tried;
}

pub noted-IsSound :
    (r : Row) (at : ℕ) (m : Option Message)
    → IsSound r
    → IsSound (record r { run_after = at; last_error = m })
noted-IsSound r at m s = record {
  locked = s.locked;
  ended = s.ended;
  within = s.within;
  limited = s.limited;
  waiting_left = s.waiting_left;
  running_tried = s.running_tried;
}

pub bare_row-IsSound :
    (now : ℕ) (kind : String) (payload : Payload) (id : ℕ) → IsSound (bare_row now kind payload id)
bare_row-IsSound now kind payload id = record {
  locked = ground arith;
  ended = refl;
  within = omega arith;
  limited = omega arith;
  waiting_left = λ h. omega arith;
  running_tried = ground arith;
}
