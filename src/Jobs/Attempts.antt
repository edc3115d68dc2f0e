-- ===== src/Jobs/Attempts.antt =====
-- What every sequence of statements does to a job: how often it is claimed, and what becomes of one
-- that is over (internal/jobs/jobs.go).
use sound_dock.Base.{
  ℕ, ◌+◌, ◌≤◌, ◌≡◌, refl, sym, subst, ◌∙◌, Bool, true, false, not, ◌&&◌, some, List, [], ◌∷◌, All,
  arith,
}
use sound_dock.Jobs.Rows.{Row, Table, JobStatus, is_active, is_waiting}
use sound_dock.Jobs.Queue.{request_cancel}
use sound_dock.Jobs.Trace.{Op, apply, apply_all, touched_row, bare_row}
use sound_dock.Base.{All-imp}
use sound_dock.Jobs.Sound.{IsSound}
use sound_dock.Jobs.Orderly.{Orderly}
use sound_dock.Jobs.Invariant.{apply-Orderly}
use sound_dock.Jobs.Moves.{
  Carries, Carries-same, Carries-trans, Carries-back, claims, requeues, writes_off, may_move,
  one_if, Moved,
}
use sound_dock.Jobs.Rows.{has_id}
use sound_dock.Jobs.Queue.{set_progress, set_result}
use sound_dock.Jobs.Steps.{
  enqueue-Unclaimed, insert-Unclaimed, cancel_rows-Unclaimed, cancel_found-Unclaimed,
  retry_job-Moved, settle-Unclaimed, reap_stale-Unclaimed, unread-Unclaimed, quiet-Unclaimed,
  touched-Unclaimed, noted-Unclaimed, unhandled-Moved, insert_row-Unclaimed,
}
use sound_dock.Jobs.Selected.{claim_once-Moved}
use sound_dock.Jobs.Rows.{find_row}

-- Each statement moves each job of an orderly table as a job may move: queued or put back, it may start
-- to run or be cancelled; running, it may complete, fail, be cancelled or be put back; failed or
-- cancelled, a retry of it may queue it again; completed, it stays; and in any status it fails where a
-- worker that has no handler for its type writes it off, however late. It keeps its identifier, type,
-- pool and limit; its attempts grow by one just when it is claimed, which it is only while it waits, and
-- start again only with a retry.
pub apply-Moved :
    (op : Op) (t : Table)
    → Orderly t
    → Carries (Moved (claims op t) (requeues op) (writes_off op)) t.rows (apply op t).rows
unfolding apply claims request_cancel set_progress set_result
apply-Moved (Op.enqueued now configs kind key input) t o =
    enqueue-Unclaimed now configs kind key input t
apply-Moved (Op.late_insert now kind payload cfg) t o = insert-Unclaimed now kind payload cfg t
apply-Moved (Op.progressed id p) t o =
    quiet-Unclaimed (has_id id) (λ r. record r { progress = p }) t.rows
      (λ r. unread-Unclaimed r r.cancel_requested p r.result)
apply-Moved (Op.resulted id v) t o =
    quiet-Unclaimed (has_id id) (λ r. record r { result = some v }) t.rows
      (λ r. unread-Unclaimed r r.cancel_requested r.progress (some v))
apply-Moved (Op.cancelled now e id) t o = cancel_found-Unclaimed now e id (find_row id t.rows) t
apply-Moved (Op.late_cancel now id) t o = cancel_rows-Unclaimed now id t.rows
apply-Moved (Op.retried now id) t o = retry_job-Moved now id t
apply-Moved (Op.claimed now worker pool cfg) t o = claim_once-Moved now worker pool cfg t o
apply-Moved (Op.unhandled now alive id) t o = unhandled-Moved now alive id t
apply-Moved (Op.settled now alive worker cfg id f) t o =
    settle-Unclaimed now alive worker cfg id f t
apply-Moved (Op.reaped now) t o = reap_stale-Unclaimed now t
apply-Moved (Op.touched now id p) t o =
    quiet-Unclaimed (has_id id) (touched_row now p) t.rows (touched-Unclaimed now p)
apply-Moved (Op.postponed id at) t o =
    quiet-Unclaimed (has_id id) (λ r. record r { run_after = at }) t.rows
      (λ r. noted-Unclaimed r at r.last_error)
apply-Moved (Op.noted id m) t o =
    quiet-Unclaimed (has_id id) (λ r. record r { last_error = some m }) t.rows
      (λ r. noted-Unclaimed r r.run_after (some m))
apply-Moved (Op.bare_insert now kind payload) t o =
    insert_row-Unclaimed (bare_row now kind payload t.next_id) t

-- How often a job is claimed, and whether no retry of it is among the statements.
unfoldable pub claims_in : List Op → Table → ℕ → ℕ
claims_in [] t id = 0
claims_in (op ∷ ops) t id = one_if (claims op t id) + claims_in ops (apply op t) id

abbrev pub never_requeued : List Op → ℕ → Bool
never_requeued [] id = true
never_requeued (op ∷ ops) id = not (requeues op id) && never_requeued ops id

-- No worker without a handler writes the job off.
abbrev pub never_written_off : List Op → ℕ → Bool
never_written_off [] id = true
never_written_off (op ∷ ops) id = not (writes_off op id) && never_written_off ops id

abbrev Bounded : List Op → Table → Row → Type 0
Bounded ops t r =
    never_requeued ops r.id ≡ true → claims_in ops t r.id + r.attempts ≤ r.max_attempts

Bounded-before :
    (op : Op) (ops : List Op) (t : Table) (r q : Row)
    → Moved (claims op t) (requeues op) (writes_off op) r q
    → Bounded ops (apply op t) q
    → Bounded (op ∷ ops) t r
unfolding claims_in
Bounded-before op ops t r q m b h =
    let after : claims_in ops (apply op t) r.id + q.attempts ≤ q.max_attempts =
      subst (λ n. claims_in ops (apply op t) n + q.attempts ≤ q.max_attempts) m.same_job.0
        (b (subst (λ n. never_requeued ops n ≡ true) (sym m.same_job.0) (ground arith))) in
    omega (arith, m.tried (ground arith), m.same_limit)

-- Whatever happens, a job of an orderly table that nobody retries is claimed only so often that its
-- attempts do not exceed its limit: every job comes to an end of its runs.
pub claims_in-le :
    (ops : List Op) (t : Table)
    → Orderly t
    → All
        (λ r. never_requeued ops r.id ≡ true → claims_in ops t r.id + r.attempts ≤ r.max_attempts)
        t.rows
unfolding apply_all claims_in
claims_in-le [] t o =
    All-imp IsSound (Bounded [] t) t.rows (λ r s h. omega (arith, s.within)) o.sound
claims_in-le (op ∷ ops) t o =
    Carries-back (Moved (claims op t) (requeues op) (writes_off op)) (Bounded (op ∷ ops) t)
      (Bounded ops (apply op t)) t.rows (apply op t).rows (Bounded-before op ops t)
      (apply-Moved op t o) (claims_in-le ops (apply op t) (apply-Orderly op t o))

-- A job that is over stays over unless it is retried, and as it is unless it is written off.
over-stays :
    (lost : Bool) (x y : JobStatus)
    → may_move false lost x y ≡ true
    → is_active x ≡ false
    → is_active y ≡ false
over-stays lost x y h over = ground arith

over-same : (x y : JobStatus) → may_move false false x y ≡ true → is_active x ≡ false → y ≡ x
over-same x y h over = ground arith

unclaimed-over :
    (claimed : Bool) (x : JobStatus)
    → (claimed ≡ true → is_waiting x ≡ true)
    → is_active x ≡ false
    → one_if claimed ≡ 0
unclaimed-over claimed x waits over = ground arith

abbrev pub Over : List Op → Table → Row → Row → Type 0
Over ops t r q =
    (q.id ≡ r.id)
    × (is_active r.status ≡ false
        → never_requeued ops r.id ≡ true
        → (is_active q.status ≡ false)
          × (claims_in ops t r.id ≡ 0)
          × (never_written_off ops r.id ≡ true → q.status ≡ r.status))

Over-before :
    (op : Op) (ops : List Op) (t : Table) (r q s : Row)
    → Moved (claims op t) (requeues op) (writes_off op) r q
    → Over ops (apply op t) q s
    → Over (op ∷ ops) t r s
unfolding claims_in
Over-before op ops t r q s m (same, later) = (
  same ∙ m.same_job.0,
  λ over calm.
      let no_retry : requeues op r.id ≡ false = ground arith in
      let legal =
        subst (λ b. may_move b (writes_off op r.id) r.status q.status ≡ true) no_retry m.legal in
      let (ends, unclaimed, kept) =
        later (over-stays (writes_off op r.id) r.status q.status legal over)
          (subst (λ n. never_requeued ops n ≡ true) (sym m.same_job.0) (ground arith)) in
      (
        ends,
        omega (
          arith,
          unclaimed-over (claims op t r.id) r.status m.waited over,
          subst (λ n. claims_in ops (apply op t) n ≡ 0) m.same_job.0 unclaimed,
        ),
        λ spared.
            let not_lost : writes_off op r.id ≡ false = ground arith in
            kept (subst (λ n. never_written_off ops n ≡ true) (sym m.same_job.0) (ground arith))
            ∙ over-same r.status q.status
                (subst (λ b. may_move false b r.status q.status ≡ true) not_lost legal) over,
      ),
)

-- A job of an orderly table that is completed, failed or cancelled, and that nobody retries, is over for
-- good, whatever happens: it never waits or runs again, and no worker claims it. It keeps its status too,
-- unless a worker that has no handler for its type writes it off, which makes it failed.
pub over_for_good :
    (ops : List Op) (t : Table)
    → Orderly t
    → Carries
        (λ r q.
          (q.id ≡ r.id)
          × (is_active r.status ≡ false
              → never_requeued ops r.id ≡ true
              → (is_active q.status ≡ false)
                × (claims_in ops t r.id ≡ 0)
                × (never_written_off ops r.id ≡ true → q.status ≡ r.status)))
        t.rows
        (apply_all ops t).rows
unfolding apply_all claims_in
over_for_good [] t o =
    Carries-same (Over [] t) t.rows (λ r. (refl, λ over calm. (over, refl, λ spared. refl)))
over_for_good (op ∷ ops) t o =
    Carries-trans (Moved (claims op t) (requeues op) (writes_off op)) (Over ops (apply op t))
      (Over (op ∷ ops) t) t.rows (apply op t).rows (apply_all ops (apply op t)).rows
      (Over-before op ops t) (apply-Moved op t o)
      (over_for_good ops (apply op t) (apply-Orderly op t o))
