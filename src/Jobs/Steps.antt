-- ===== src/Jobs/Steps.antt =====
-- Each statement of internal/jobs moves each row as a job may move.
use sound_dock.Base.{
  if-either, ℕ, ◌≡◌, refl, sym, subst, ℤ, pos, ltb_ℤ, Bool, true, false, not, Option, none, some,
  List, [], ◌∷◌, ◌++◌, String, str_eq, if◌then◌else◌, any, ◌==◌, arith, Result,
}
use sound_dock.Jobs.Pools.{Pool, PoolConfig, pool_for_type}
use sound_dock.Jobs.Rows.{
  Row, Table, Payload, JobStatus, Message, is_waiting, is_running, queue_depth, respects_index,
}
use sound_dock.Base.{update}
use sound_dock.Jobs.Cancel.{Elsewhere}
use sound_dock.Jobs.Queue.{
  JobError, Input, enqueue, insert, insert_row, cancel_rows, cancelled_row, retry_job, waits, runs,
  retries, cancel_found, cancellable, with_payload, payload_with_coalesce_key, count_and_insert,
  find_coalesced, or_coalesced, requeued, new_row,
}
use sound_dock.Jobs.Runner.{
  Failure, settle, reap_stale, completed_row, ended_row, failed_once, set_back, fail, written,
  failure_message, runs_here, is_lost, lost_message,
}
use sound_dock.Jobs.Rows.{has_id}
use sound_dock.Jobs.Runner.{fail_unhandled}
use sound_dock.Jobs.Trace.{touched_row}
use sound_dock.Jobs.Kept.{after_insert-same}
use sound_dock.Jobs.Moves.{
  Carries, Carries-update, Carries-same, Carries-append, may_move, Moved, no_one, Unclaimed,
  Unclaimed-refl,
}

-- A table after statements that claim nothing and queue nothing again, beside an answer.
abbrev pub IsUnclaimed : {A : Type 0} → Table → Table × A → Type 0
IsUnclaimed t (u, answer) = Carries Unclaimed t.rows u.rows

pub unchanged : (t : Table) → Carries Unclaimed t.rows t.rows
unchanged t = Carries-same Unclaimed t.rows Unclaimed-refl

pub written-Unclaimed :
    (alive : Bool) (p : Row → Bool) (f : Row → Row) (t : Table)
    → ((r : Row) → p r ≡ true → Unclaimed r (f r))
    → Carries Unclaimed t.rows (written alive p f t).rows
written-Unclaimed true p f t hit = Carries-update Unclaimed p f t.rows hit (λ r h. Unclaimed-refl r)
written-Unclaimed false p f t hit = unchanged t

pub ended-Unclaimed :
    (status : JobStatus) (now : ℕ) (m : Message) (r : Row)
    → may_move false false r.status status ≡ true
    → Unclaimed r (ended_row status now m r)
ended-Unclaimed status now m r h = record {
  same_job = (refl, refl, refl);
  same_limit = refl;
  legal = h;
  tried = λ h. omega arith;
  waited = λ h. absurd (ground arith);
}

completed-Unclaimed :
    (now : ℕ) (r : Row) → is_running r.status ≡ true → Unclaimed r (completed_row now r)
completed-Unclaimed now r h = record {
  same_job = (refl, refl, refl);
  same_limit = refl;
  legal = ground arith;
  tried = λ h. omega arith;
  waited = λ h. absurd (ground arith);
}

set_back-Unclaimed :
    (now : ℕ) (m : Option Message) (r : Row)
    → is_running r.status ≡ true
    → Unclaimed r (set_back now m r)
set_back-Unclaimed now m r h = record {
  same_job = (ground arith, ground arith, ground arith);
  same_limit = ground arith;
  legal = ground arith;
  tried = ground arith;
  waited = λ h. absurd (ground arith);
}

failed_once-Unclaimed :
    (now : ℕ) (m : Message) (r : Row)
    → is_running r.status ≡ true
    → Unclaimed r (failed_once now m r)
failed_once-Unclaimed now m r h = record {
  same_job = (ground arith, ground arith, ground arith);
  same_limit = ground arith;
  legal = ground arith;
  tried = ground arith;
  waited = λ h. absurd (ground arith);
}

cancelled-Unclaimed :
    (now : ℕ) (r : Row) → is_waiting r.status ≡ true → Unclaimed r (cancelled_row now r)
cancelled-Unclaimed now r h = record {
  same_job = (refl, refl, refl);
  same_limit = refl;
  legal = ground arith;
  tried = λ h. omega arith;
  waited = λ h. absurd (ground arith);
}

pub unread-Unclaimed :
    (r : Row) (asked : Bool) (p : ℤ) (v : Option ℕ)
    → Unclaimed r (record r { cancel_requested = asked; progress = p; result = v })
unread-Unclaimed r asked p v = record {
  same_job = (refl, refl, refl);
  same_limit = refl;
  legal = ground arith;
  tried = λ h. omega arith;
  waited = λ h. absurd (ground arith);
}

pub fail-Unclaimed :
    (now : ℕ) (alive : Bool) (cfg : PoolConfig) (id : ℕ) (f : Failure) (t : Table)
    → IsUnclaimed t (fail now alive cfg id f t)
unfolding fail
fail-Unclaimed now alive cfg id f t =
    if-either (IsUnclaimed t) f.terminal
      (written-Unclaimed alive (runs id) (ended_row JobStatus.failed now (failure_message cfg f)) t
        (λ r h. ended-Unclaimed JobStatus.failed now (failure_message cfg f) r (ground arith)))
      (written-Unclaimed alive (runs id) (failed_once now (failure_message cfg f)) t
        (λ r h. failed_once-Unclaimed now (failure_message cfg f) r (ground arith)))

pub settle-Unclaimed :
    (now : ℕ) (alive : Bool) (worker : ℕ) (cfg : PoolConfig) (id : ℕ) (f : Option Failure)
    (t : Table)
    → IsUnclaimed t (settle now alive worker cfg id f t)
settle-Unclaimed now alive worker cfg id none t =
    written-Unclaimed alive (runs id) (completed_row now) t
      (λ r h. completed-Unclaimed now r (ground arith))
settle-Unclaimed now alive worker cfg id (some f) t =
    if-either (IsUnclaimed t) f.cancelled
      (written-Unclaimed alive (runs_here worker id) (ended_row JobStatus.cancelled now f.message) t
        (λ r h. ended-Unclaimed JobStatus.cancelled now f.message r (ground arith)))
      (fail-Unclaimed now alive cfg id f t)

pub reap_stale-Unclaimed : (now : ℕ) (t : Table) → Carries Unclaimed t.rows (reap_stale now t).rows
unfolding reap_stale
reap_stale-Unclaimed now t =
    Carries-update Unclaimed (is_lost now) (λ r. set_back now (some (lost_message r.last_error)) r)
      t.rows (λ r h. set_back-Unclaimed now (some (lost_message r.last_error)) r (ground arith))
      (λ r h. Unclaimed-refl r)

pub cancel_rows-Unclaimed :
    (now id : ℕ) (rows : List Row) → Carries Unclaimed rows (cancel_rows now id rows)
unfolding cancel_rows
cancel_rows-Unclaimed now id rows =
    if-either (Carries Unclaimed rows) (any (waits id) rows)
      (Carries-update Unclaimed (waits id) (cancelled_row now) rows
        (λ r h. cancelled-Unclaimed now r (ground arith)) (λ r h. Unclaimed-refl r))
      (Carries-update Unclaimed (runs id) (λ r. record r { cancel_requested = true }) rows
        (λ r h. unread-Unclaimed r true r.progress r.result) (λ r h. Unclaimed-refl r))

pub cancel_found-Unclaimed :
    (now : ℕ) (e : Elsewhere) (id : ℕ) (r : Option Row) (t : Table)
    → IsUnclaimed t (cancel_found now e id r t)
cancel_found-Unclaimed now e id none t = unchanged t
cancel_found-Unclaimed now e id (some r) t =
    if-either (IsUnclaimed t) (cancellable e r) (cancel_rows-Unclaimed now id t.rows) (unchanged t)

pub insert_row-Unclaimed : (last : Row) (t : Table) → IsUnclaimed t (insert_row last t)
insert_row-Unclaimed last t =
    if-either (IsUnclaimed t) (respects_index (t.rows ++ (last ∷ [])))
      (Carries-append Unclaimed t.rows (last ∷ []) Unclaimed-refl) (unchanged t)

pub insert-Unclaimed :
    (now : ℕ) (kind : String) (payload : Payload) (cfg : PoolConfig) (t : Table)
    → IsUnclaimed t (insert now kind payload cfg t)
unfolding insert
insert-Unclaimed now kind payload cfg t =
    insert_row-Unclaimed (new_row now kind payload cfg t.next_id) t

with_payload-Unclaimed :
    (now : ℕ) (kind key : String) (payload : Option Payload) (cfg : PoolConfig) (t : Table)
    → IsUnclaimed t (with_payload now kind key payload cfg t)
with_payload-Unclaimed now kind key none cfg t = unchanged t
with_payload-Unclaimed now kind key (some payload) cfg t =
    elim (if str_eq key "" then none else find_coalesced kind key t.rows)
      as (λ r. IsUnclaimed t (or_coalesced r t (count_and_insert now kind key payload cfg t))) [
        | some r ↦ unchanged t
        | none ↦
            if-either (IsUnclaimed t)
              (ltb_ℤ (pos (queue_depth (pool_for_type kind) t.rows)) cfg.queue_limit)
              (subst (λ (u : Table). Carries Unclaimed t.rows u.rows)
                (sym (after_insert-same kind key (insert now kind payload cfg t)))
                (insert-Unclaimed now kind payload cfg t))
              (unchanged t)
      ]

pub enqueue-Unclaimed :
    (now : ℕ) (configs : Pool → PoolConfig) (kind key : String) (input : Input) (t : Table)
    → IsUnclaimed t (enqueue now configs kind key input t)
unfolding enqueue
enqueue-Unclaimed now configs kind key input t =
    if-either (IsUnclaimed t) ((configs (pool_for_type kind)).enabled)
      (with_payload-Unclaimed now kind key (payload_with_coalesce_key input key)
        (configs (pool_for_type kind)) t)
      (unchanged t)

pub retry_job-Moved :
    (now id : ℕ) (t : Table)
    → Carries (Moved no_one (λ r. id == r) no_one) t.rows (retry_job now id t).0.rows
unfolding retry_job
retry_job-Moved now id t =
    let moved =
      Carries-update (Moved no_one (λ r. id == r) no_one) (retries id) (requeued now) t.rows
        (λ r h. record {
          same_job = (refl, refl, refl);
          same_limit = refl;
          legal = ground arith;
          tried = ground arith;
          waited = λ h. absurd (ground arith);
        })
        (λ r h. idle id r) in
    if-either {A = Table × Result JobError (Unit {0})}
      (λ x. Carries (Moved no_one (λ r. id == r) no_one) t.rows x.0.rows)
      (not (respects_index (update (retries id) (requeued now) t.rows)))
      (Carries-same (Moved no_one (λ r. id == r) no_one) t.rows (idle id))
      (if-either {A = Table × Result JobError (Unit {0})}
        (λ x. Carries (Moved no_one (λ r. id == r) no_one) t.rows x.0.rows)
        (any (retries id) t.rows) moved moved)
  where
    idle : (id : ℕ) (r : Row) → Moved no_one (λ n. id == n) no_one r r
    idle id r = record {
      same_job = (refl, refl, refl);
      same_limit = refl;
      legal = ground arith;
      tried = λ h. omega arith;
      waited = λ h. absurd (ground arith);
    }

-- A write of columns that the moves do not read.
pub quiet-Unclaimed :
    (p : Row → Bool) (f : Row → Row) (rows : List Row)
    → ((r : Row) → Unclaimed r (f r))
    → Carries Unclaimed rows (update p f rows)
quiet-Unclaimed p f rows same =
    Carries-update Unclaimed p f rows (λ r h. same r) (λ r h. Unclaimed-refl r)

pub touched-Unclaimed : (now : ℕ) (p : ℤ) (r : Row) → Unclaimed r (touched_row now p r)
touched-Unclaimed now p r = record {
  same_job = (refl, refl, refl);
  same_limit = refl;
  legal = ground arith;
  tried = λ h. omega arith;
  waited = λ h. absurd (ground arith);
}

pub noted-Unclaimed :
    (r : Row) (at : ℕ) (m : Option Message)
    → Unclaimed r (record r { run_after = at; last_error = m })
noted-Unclaimed r at m = record {
  same_job = (refl, refl, refl);
  same_limit = refl;
  legal = ground arith;
  tried = λ h. omega arith;
  waited = λ h. absurd (ground arith);
}

pub unhandled-Moved :
    (now : ℕ) (alive : Bool) (id : ℕ) (t : Table)
    → Carries (Moved no_one no_one (λ r. id == r)) t.rows (fail_unhandled now alive id t).rows
unhandled-Moved now false id t = Carries-same (Moved no_one no_one (λ r. id == r)) t.rows (λ r.
    record {
      same_job = (refl, refl, refl);
      same_limit = refl;
      legal = ground arith;
      tried = λ h. omega arith;
      waited = λ h. absurd (ground arith);
    })
unhandled-Moved now true id t =
    Carries-update (Moved no_one no_one (λ r. id == r)) (has_id id)
      (ended_row JobStatus.failed now Message.no_handler) t.rows
      (λ r h. record {
        same_job = (refl, refl, refl);
        same_limit = refl;
        legal = ground arith;
        tried = λ h. omega arith;
        waited = λ h. absurd (ground arith);
      })
      (λ r h. record {
        same_job = (refl, refl, refl);
        same_limit = refl;
        legal = ground arith;
        tried = λ h. omega arith;
        waited = λ h. absurd (ground arith);
      })
