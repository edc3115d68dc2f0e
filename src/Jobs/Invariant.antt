-- ===== src/Jobs/Invariant.antt =====
-- Every sequence of statements on the table jobs keeps it orderly (internal/jobs/jobs.go).
use sound_dock.Base.{
  ℕ, ◌≡◌, refl, inl, inr, Bool, true, false, ◌&&◌, some, List, [], ◌∷◌, All, Bool-cases,
  Option-cases, arith,
}
use sound_dock.Jobs.Pools.{Pool, PoolConfig}
use sound_dock.Jobs.Rows.{Row, Table, JobStatus, Message, is_waiting, has_id}
use sound_dock.Jobs.Runner.{claim_once, claimed, fail_unhandled, ended_row, next_job, is_runnable}
use sound_dock.Jobs.Trace.{Op, apply, apply_all, touched_row, bare_row}
use sound_dock.Base.{All-imp, Apart, update-agree}
use sound_dock.Jobs.Sound.{
  claimed-IsSound, ended-IsSound, touched-IsSound, noted-IsSound, bare_row-IsSound,
}
use sound_dock.Jobs.Orderly.{
  same_id, Orderly, update-Orderly, insert-Orderly, insert_row-Orderly, retry_job-Orderly,
}
use sound_dock.Jobs.Claims.{next_job-All}
use sound_dock.Jobs.Kept.{
  written-Orderly, settle-Orderly, reap_stale-Orderly, cancel_rows-Orderly, progress-Orderly,
  result-Orderly, request_cancel-Orderly, enqueue-Orderly,
}

-- A row is the only one with its identifier.
alone :
    (rows : List Row)
    → Apart same_id rows
    → All (λ j. All (λ r. has_id j.id r ≡ true → r ≡ j) rows) rows
alone [] h = tt
alone (x ∷ rows) (h, hs) = (
  (
    λ e. refl,
    All-imp (λ q. same_id x q ≡ false) (λ r. has_id x.id r ≡ true → r ≡ x) rows
        (λ r apart same. absurd (ground arith)) h,
  ),
  both x rows rows h (alone rows hs),
)
  where
    both :
        (x : Row) (rows more : List Row)
        → All (λ q. same_id x q ≡ false) more
        → All (λ j. All (λ r. has_id j.id r ≡ true → r ≡ j) rows) more
        → All (λ j. All (λ r. has_id j.id r ≡ true → r ≡ j) (x ∷ rows)) more
    both x rows [] h g = tt
    both x rows (j ∷ more) (h, hs) (g, gs) =
        ((λ e. absurd (ground arith), g), both x rows more hs gs)

-- Of the rows with the identifier of the selected job, all wait.
pub chosen-waits :
    (now : ℕ) (pool : Pool) (t : Table) (j : Row)
    → Orderly t
    → next_job now pool t.rows ≡ some j
    → All (λ r. has_id j.id r ≡ (has_id j.id r && is_waiting r.status)) t.rows
unfolding is_runnable
chosen-waits now pool t j o chosen =
    let (only, runnable) =
      next_job-All (λ j. All (λ r. has_id j.id r ≡ true → r ≡ j) t.rows) now pool t.rows j
        (alone t.rows o.ids_apart) chosen in
    All-imp (λ r. has_id j.id r ≡ true → r ≡ j)
      (λ r. has_id j.id r ≡ (has_id j.id r && is_waiting r.status)) t.rows
      (λ r same. elim (Bool-cases (has_id j.id r)) [
        | inl it ↦ rw (same it) (ground arith)
        | inr other ↦ rw other refl
      ])
      only

pub claim_once-Orderly :
    (now worker : ℕ) (pool : Pool) (cfg : PoolConfig) (t : Table)
    → Orderly t
    → Orderly (claim_once now worker pool cfg t).0
unfolding claim_once
claim_once-Orderly now worker pool cfg t o = elim (Option-cases (next_job now pool t.rows)) [
  | inl no_job ↦ rw no_job o
  | inr (j, chosen) ↦
      rw
        (
          chosen,
          update-agree (has_id j.id) (λ r. has_id j.id r && is_waiting r.status)
              (claimed now (worker, pool) cfg) t.rows (chosen-waits now pool t j o chosen),
        )
        (update-Orderly (λ r. has_id j.id r && is_waiting r.status) (claimed now (worker, pool) cfg)
          t (λ r h. (refl, refl, λ a. ground arith))
          (λ r h. claimed-IsSound now (worker, pool) cfg r (ground arith)) o)
]

unhandled-Orderly :
    (now : ℕ) (alive : Bool) (id : ℕ) (t : Table)
    → Orderly t
    → Orderly (fail_unhandled now alive id t)
unhandled-Orderly now alive id t o =
    written-Orderly alive (has_id id) (ended_row JobStatus.failed now Message.no_handler) t
      (λ r h. (refl, refl, ground arith))
      (λ r h. ended-IsSound JobStatus.failed now Message.no_handler r refl) o

pub apply-Orderly : (op : Op) (t : Table) → Orderly t → Orderly (apply op t)
unfolding apply
apply-Orderly (Op.enqueued now configs kind key input) t o =
    enqueue-Orderly now configs kind key input t o
apply-Orderly (Op.late_insert now kind payload cfg) t o = insert-Orderly now kind payload cfg t o
apply-Orderly (Op.progressed id p) t o = progress-Orderly id p t o
apply-Orderly (Op.resulted id v) t o = result-Orderly id v t o
apply-Orderly (Op.cancelled now e id) t o = request_cancel-Orderly now e id t o
apply-Orderly (Op.late_cancel now id) t o = cancel_rows-Orderly now id t o
apply-Orderly (Op.retried now id) t o = retry_job-Orderly now id t o
apply-Orderly (Op.claimed now worker pool cfg) t o = claim_once-Orderly now worker pool cfg t o
apply-Orderly (Op.unhandled now alive id) t o = unhandled-Orderly now alive id t o
apply-Orderly (Op.settled now alive worker cfg id f) t o =
    settle-Orderly now alive worker cfg id f t o
apply-Orderly (Op.reaped now) t o = reap_stale-Orderly now t o
apply-Orderly (Op.touched now id p) t o =
    update-Orderly (has_id id) (touched_row now p) t (λ r h. (refl, refl, λ a. a))
      (λ r h. touched-IsSound now p r) o
apply-Orderly (Op.postponed id at) t o =
    update-Orderly (has_id id) (λ r. record r { run_after = at }) t (λ r h. (refl, refl, λ a. a))
      (λ r h. noted-IsSound r at r.last_error) o
apply-Orderly (Op.noted id m) t o =
    update-Orderly (has_id id) (λ r. record r { last_error = some m }) t
      (λ r h. (refl, refl, λ a. a)) (λ r h. noted-IsSound r r.run_after (some m)) o
apply-Orderly (Op.bare_insert now kind payload) t o =
    insert_row-Orderly (bare_row now kind payload t.next_id) t
      (bare_row-IsSound now kind payload t.next_id) refl o

-- Whatever the requests, the workers, their handlers and the reaper do to a table that is orderly, and in
-- whatever order, also when a worker that was given up still writes, it is orderly afterwards: no two jobs
-- have an identifier, or two active ones a coalesce key, in common; a running job is locked and was
-- claimed; a job has an end just when it is completed, failed or cancelled; and no job is claimed more
-- often than it may be since it was last queued.
pub apply_all-Orderly : (ops : List Op) (t : Table) → Orderly t → Orderly (apply_all ops t)
unfolding apply_all
apply_all-Orderly [] t o = o
apply_all-Orderly (op ∷ ops) t o = apply_all-Orderly ops (apply op t) (apply-Orderly op t o)
