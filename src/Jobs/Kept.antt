-- ===== src/Jobs/Kept.antt =====
-- Each statement on the table jobs keeps it orderly (internal/jobs/jobs.go).
use sound_dock.Base.{
  if-either, ℕ, ◌≡◌, refl, inl, inr, sym, subst, ℤ, Bool, true, false, Option, none, some, String,
  if◌then◌else◌, any, Bool-cases, Option-cases, arith, ok, err, str_eq, ltb_ℤ, pos, Result,
}
use sound_dock.Jobs.Pools.{Pool, PoolConfig, pool_for_type}
use sound_dock.Jobs.Rows.{Row, Table, Payload, JobStatus, has_id, find_row, queue_depth}
use sound_dock.Jobs.Cancel.{Elsewhere}
use sound_dock.Jobs.Queue.{
  JobError, Input, enqueue, insert, set_progress, set_result, request_cancel, cancel_rows,
  cancelled_row, waits, runs, cancel_found, cancellable, after_insert, with_payload,
  payload_with_coalesce_key, count_and_insert, find_coalesced, or_coalesced,
}
use sound_dock.Jobs.Runner.{
  Failure, settle, reap_stale, completed_row, ended_row, failed_once, set_back, fail, written,
  failure_message, runs_here, is_lost, lost_message,
}
use sound_dock.Jobs.Sound.{
  IsSound, completed-IsSound, ended-IsSound, set_back-IsSound, failed_once-IsSound,
  cancelled-IsSound, unread-IsSound,
}
use sound_dock.Jobs.Orderly.{Orderly, IsCalm, update-Orderly, insert-Orderly}

-- The table beside an answer.
abbrev IsKept : {A : Type 0} → Table × A → Type 0
IsKept (t, answer) = Orderly t

pub written-Orderly :
    (alive : Bool) (p : Row → Bool) (f : Row → Row) (t : Table)
    → IsCalm p f
    → ((r : Row) → p r ≡ true → IsSound r → IsSound (f r))
    → Orderly t
    → Orderly (written alive p f t)
written-Orderly true p f t calm kept o = update-Orderly p f t calm kept o
written-Orderly false p f t calm kept o = o

-- The writes of a run's end.
failed-Orderly :
    (now : ℕ) (alive : Bool) (cfg : PoolConfig) (id : ℕ) (f : Failure) (t : Table)
    → Orderly t
    → Orderly (fail now alive cfg id f t).0
unfolding fail
failed-Orderly now alive cfg id f t o =
    if-either IsKept f.terminal
      (written-Orderly alive (runs id) (ended_row JobStatus.failed now (failure_message cfg f)) t
        (λ r h. (refl, refl, ground arith))
        (λ r h. ended-IsSound JobStatus.failed now (failure_message cfg f) r refl) o)
      (written-Orderly alive (runs id) (failed_once now (failure_message cfg f)) t
        (λ r h. (ground arith, ground arith, ground arith))
        (λ r h. failed_once-IsSound now (failure_message cfg f) r (ground arith)) o)

pub settle-Orderly :
    (now : ℕ) (alive : Bool) (worker : ℕ) (cfg : PoolConfig) (id : ℕ) (f : Option Failure)
    (t : Table)
    → Orderly t
    → Orderly (settle now alive worker cfg id f t).0
settle-Orderly now alive worker cfg id none t o =
    written-Orderly alive (runs id) (completed_row now) t (λ r h. (refl, refl, ground arith))
      (λ r h. completed-IsSound now r) o
settle-Orderly now alive worker cfg id (some f) t o =
    if-either IsKept f.cancelled
      (written-Orderly alive (runs_here worker id) (ended_row JobStatus.cancelled now f.message) t
        (λ r h. (refl, refl, ground arith))
        (λ r h. ended-IsSound JobStatus.cancelled now f.message r refl) o)
      (failed-Orderly now alive cfg id f t o)

pub reap_stale-Orderly : (now : ℕ) (t : Table) → Orderly t → Orderly (reap_stale now t)
unfolding reap_stale
reap_stale-Orderly now t o =
    update-Orderly (is_lost now) (λ r. set_back now (some (lost_message r.last_error)) r) t
      (λ r h. (ground arith, ground arith, ground arith))
      (λ r h. set_back-IsSound now (some (lost_message r.last_error)) r (ground arith)) o

pub cancel_rows-Orderly :
    (now id : ℕ) (t : Table) → Orderly t → Orderly (record t { rows = cancel_rows now id t.rows })
unfolding cancel_rows
cancel_rows-Orderly now id t o =
    if-either (λ rows. Orderly (record t { rows = rows })) (any (waits id) t.rows)
      (update-Orderly (waits id) (cancelled_row now) t (λ r h. (refl, refl, ground arith))
        (λ r h. cancelled-IsSound now r (ground arith)) o)
      (update-Orderly (runs id) (λ r. record r { cancel_requested = true }) t
        (λ r h. (refl, refl, λ a. a)) (λ r h. unread-IsSound r true r.progress r.result) o)

pub progress-Orderly : (id : ℕ) (p : ℤ) (t : Table) → Orderly t → Orderly (set_progress id p t)
unfolding set_progress
progress-Orderly id p t o =
    update-Orderly (has_id id) (λ r. record r { progress = p }) t (λ r h. (refl, refl, λ a. a))
      (λ r h. unread-IsSound r r.cancel_requested p r.result) o

pub result-Orderly : (id v : ℕ) (t : Table) → Orderly t → Orderly (set_result id v t)
unfolding set_result
result-Orderly id v t o =
    update-Orderly (has_id id) (λ r. record r { result = some v }) t (λ r h. (refl, refl, λ a. a))
      (λ r h. unread-IsSound r r.cancel_requested r.progress (some v)) o

cancel_found-Orderly :
    (now : ℕ) (e : Elsewhere) (id : ℕ) (r : Option Row) (t : Table)
    → Orderly t
    → Orderly (cancel_found now e id r t).0
cancel_found-Orderly now e id none t o = o
cancel_found-Orderly now e id (some r) t o =
    if-either IsKept (cancellable e r) (cancel_rows-Orderly now id t o) o

pub request_cancel-Orderly :
    (now : ℕ) (e : Elsewhere) (id : ℕ) (t : Table)
    → Orderly t
    → Orderly (request_cancel now e id t).0
unfolding request_cancel
request_cancel-Orderly now e id t o = cancel_found-Orderly now e id (find_row id t.rows) t o

-- An `enqueue` leaves the table as it was or makes the INSERT.
pub after_insert-same :
    (kind key : String) (r : Table × Result JobError ℕ) → (after_insert kind key r).0 ≡ r.0
after_insert-same kind key (t, ok id) = refl
after_insert-same kind key (t, err e) = elim (Bool-cases (str_eq key "")) [
  | inl empty ↦ rw empty refl
  | inr keyed ↦ elim (Option-cases (find_coalesced kind key t.rows)) [
    | inl missing ↦ rw (keyed, missing) refl
    | inr (r, found) ↦ rw (keyed, found) refl
  ]
]

count_and_insert-Orderly :
    (now : ℕ) (kind key : String) (payload : Payload) (cfg : PoolConfig) (t : Table)
    → Orderly t
    → Orderly (count_and_insert now kind key payload cfg t).0
count_and_insert-Orderly now kind key payload cfg t o =
    if-either IsKept (ltb_ℤ (pos (queue_depth (pool_for_type kind) t.rows)) cfg.queue_limit)
      (subst Orderly (sym (after_insert-same kind key (insert now kind payload cfg t)))
        (insert-Orderly now kind payload cfg t o))
      o

or_coalesced-Orderly :
    (r : Option Row) (t : Table) (otherwise : Table × Result JobError ℕ)
    → Orderly t
    → Orderly otherwise.0
    → Orderly (or_coalesced r t otherwise).0
or_coalesced-Orderly none t otherwise o p = p
or_coalesced-Orderly (some r) t otherwise o p = o

with_payload-Orderly :
    (now : ℕ) (kind key : String) (payload : Option Payload) (cfg : PoolConfig) (t : Table)
    → Orderly t
    → Orderly (with_payload now kind key payload cfg t).0
with_payload-Orderly now kind key none cfg t o = o
with_payload-Orderly now kind key (some payload) cfg t o =
    or_coalesced-Orderly (if str_eq key "" then none else find_coalesced kind key t.rows) t
      (count_and_insert now kind key payload cfg t) o
      (count_and_insert-Orderly now kind key payload cfg t o)

pub enqueue-Orderly :
    (now : ℕ) (configs : Pool → PoolConfig) (kind key : String) (input : Input) (t : Table)
    → Orderly t
    → Orderly (enqueue now configs kind key input t).0
unfolding enqueue
enqueue-Orderly now configs kind key input t o =
    if-either IsKept ((configs (pool_for_type kind)).enabled)
      (with_payload-Orderly now kind key (payload_with_coalesce_key input key)
        (configs (pool_for_type kind)) t o)
      o
