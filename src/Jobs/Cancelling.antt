-- ===== src/Jobs/Cancelling.antt =====
-- What `RequestCancel` of internal/jobs/jobs.go does to a job, and what its worker makes of it.
use sound_dock.Base.{
  ℕ, ◌≡◌, refl, inl, inr, sym, subst, ap, ℤ, pos, ltb_ℤ, Bool, true, false, ◌&&◌, Option, some,
  List, [], ◌∷◌, any, Bool-cases, arith, ok, err, ==_iff, ==-refl, String, All,
}
use sound_dock.Jobs.Pools.{Pool, PoolConfig}
use sound_dock.Jobs.Rows.{
  Row, Table, JobStatus, is_waiting, is_running, is_active, has_id, find_row, status_text,
}
use sound_dock.Base.{update}
use sound_dock.Jobs.Cancel.{Elsewhere, Extra, allow_cancel}
use sound_dock.Jobs.Queue.{
  JobError, request_cancel, cancel_rows, cancelled_row, waits, runs, cancellable, is_cancelled,
  extra_of,
}
use sound_dock.Jobs.Runner.{Failure, run_job, settle, ended_row, runs_here}
use sound_dock.Jobs.Trace.{Op, apply_all}
use sound_dock.Jobs.Orderly.{Orderly, same_id}
use sound_dock.Jobs.Kept.{request_cancel-Orderly}
use sound_dock.Base.{Apart}
use sound_dock.Jobs.Moves.{Carries}
use sound_dock.Jobs.Attempts.{claims_in, never_requeued, never_written_off, Over, over_for_good}

-- The row that a statement by identifier meets.
find_row-id : (id : ℕ) (rows : List Row) (r : Row) → find_row id rows ≡ some r → has_id id r ≡ true
find_row-id id [] r e = cc
find_row-id id (q ∷ rows) r e = ground (arith, find_row-id id rows r)

find_row-any :
    (id : ℕ) (p : Row → Bool) (rows : List Row) (r : Row)
    → find_row id rows ≡ some r
    → p r ≡ true
    → any p rows ≡ true
find_row-any id p [] r e h = cc
find_row-any id p (q ∷ rows) r e h = ground (arith, find_row-any id p rows r)

find_row-update :
    (id : ℕ) (p : Row → Bool) (f : Row → Row) (rows : List Row) (r : Row)
    → ((q : Row) → (f q).id ≡ q.id)
    → find_row id rows ≡ some r
    → p r ≡ true
    → find_row id (update p f rows) ≡ some (f r)
unfolding update
find_row-update id p f [] r same e h = cc
find_row-update id p f (q ∷ rows) r same e h =
    ground (arith, same q, find_row-update id p f rows r same)

find_row-Carries :
    (id : ℕ) (rel : Row → Row → Type 0) (xs ys : List Row) (r : Row)
    → ((a b : Row) → rel a b → b.id ≡ a.id)
    → find_row id xs ≡ some r
    → Carries rel xs ys
    → (q : Row) × (find_row id ys ≡ some q) × rel r q
find_row-Carries id rel [] ys r keeps e c = cc
find_row-Carries id rel (x ∷ xs) [] r keeps e c = elim c [ ]
find_row-Carries id rel (x ∷ xs) (y ∷ ys) r keeps e (c, cs) = elim (Bool-cases (has_id id x)) [
  | inl it ↦ (y, ground (arith, keeps x y c), subst (λ x. rel x y) {x = x} {y = r} (ground arith) c)
  | inr other ↦
      let (q, found, related) = find_row-Carries id rel xs ys r keeps (ground arith) cs in
      (q, ground (arith, keeps x y c, found), related)
]

-- Only a job that waits or runs is cancellable, whatever its type.
allow_active :
    (kind : String) (s : JobStatus) (progress : ℤ) (extra : Extra)
    → allow_cancel kind (status_text s) progress extra ≡ true
    → is_active s ≡ true
unfolding allow_cancel
allow_active kind JobStatus.queued progress extra h = refl
allow_active kind JobStatus.running progress extra h = refl
allow_active kind JobStatus.retry progress extra h = refl
allow_active kind JobStatus.completed progress extra h = cc
allow_active kind JobStatus.failed progress extra h = cc
allow_active kind JobStatus.cancelled progress extra h = cc

-- A job that is completed, failed or cancelled already is not cancelled: the request is refused and
-- the table stays as it is.
pub request_cancel_refuses :
    (now : ℕ) (e : Elsewhere) (id : ℕ) (t : Table) (r : Row)
    → find_row id t.rows ≡ some r
    → is_active r.status ≡ false
    → request_cancel now e id t ≡ (t, err JobError.not_cancellable)
unfolding request_cancel
request_cancel_refuses now e id t r found over = elim (Bool-cases (cancellable e r)) [
  | inl granted ↦
      absurd (ground (arith, allow_active r.kind r.status r.progress (extra_of e r) granted))
  | inr refused ↦ rw (found, refused) refl
]

cancel_rows-waiting :
    (now id : ℕ) (rows : List Row) (r : Row)
    → find_row id rows ≡ some r
    → is_waiting r.status ≡ true
    → find_row id (cancel_rows now id rows) ≡ some (cancelled_row now r)
unfolding cancel_rows
cancel_rows-waiting now id rows r e w =
    rw (find_row-any id (waits id) rows r e (ground (arith, find_row-id id rows r e))) (
      find_row-update id (waits id) (cancelled_row now) rows r (λ q. refl) e
        (ground (arith, find_row-id id rows r e)))

-- A waiting job of an orderly table whose cancellation is granted is cancelled at once, and as long
-- as nobody retries it, whatever else happens, no worker claims it and it is over; and it stays
-- cancelled unless a worker of an earlier run, which has no handler for its type, writes it off late.
pub cancel_waiting :
    (now : ℕ) (e : Elsewhere) (id : ℕ) (t : Table) (r : Row) (ops : List Op)
    → Orderly t
    → find_row id t.rows ≡ some r
    → is_waiting r.status ≡ true
    → cancellable e r ≡ true
    → never_requeued ops id ≡ true
    → ((request_cancel now e id t).1 ≡ ok tt)
      × (find_row id (request_cancel now e id t).0.rows ≡ some (cancelled_row now r))
      × (claims_in ops (request_cancel now e id t).0 id ≡ 0)
      × ((q : Row) × (find_row id (apply_all ops (request_cancel now e id t).0).rows ≡ some q)
          × (is_active q.status ≡ false)
          × (never_written_off ops id ≡ true → q.status ≡ JobStatus.cancelled))
unfolding request_cancel
cancel_waiting now e id t r ops o found waiting granted calm =
    let done : request_cancel now e id t ≡ (record t { rows = cancel_rows now id t.rows }, ok tt) =
      rw (found, granted) refl in
    let first : find_row id (request_cancel now e id t).0.rows ≡ some (cancelled_row now r) =
      rw (found, granted) (cancel_rows-waiting now id t.rows r found waiting) in
    let (q, here, carried) =
      find_row-Carries id (Over ops (request_cancel now e id t).0)
        (request_cancel now e id t).0.rows (apply_all ops (request_cancel now e id t).0).rows
        (cancelled_row now r) (λ a b rel. rel.0) first
        (over_for_good ops (request_cancel now e id t).0 (request_cancel-Orderly now e id t o)) in
    let named : r.id ≡ id = (==_iff r.id id).0 (find_row-id id t.rows r found) in
    let (ends, unclaimed, kept) =
      carried.1 refl (subst (λ n. never_requeued ops n ≡ true) (sym named) calm) in
    (
      ap (λ x. x.1) done,
      first,
      subst (λ n. claims_in ops (request_cancel now e id t).0 n ≡ 0) named unclaimed,
      (
        q,
        here,
        ends,
        λ spared. kept (subst (λ n. never_written_off ops n ≡ true) (sym named) spared),
      ),
    )

find_row-asked :
    (now id : ℕ) (rows : List Row) (r : Row)
    → any (waits id) rows ≡ false
    → find_row id rows ≡ some r
    → is_running r.status ≡ true
    → find_row id (cancel_rows now id rows) ≡ some (record r { cancel_requested = true })
unfolding cancel_rows
find_row-asked now id rows r none_waits e run = rw none_waits (
    find_row-update id (runs id) (λ q. record q { cancel_requested = true }) rows r (λ q. refl) e
      (ground (arith, find_row-id id rows r e)))

others_differ :
    (id : ℕ) (q : Row) (rows : List Row)
    → All (λ r. same_id q r ≡ false) rows
    → has_id id q ≡ true
    → any (waits id) rows ≡ false
others_differ id q [] a h = refl
others_differ id q (r ∷ rows) (a, rest) h = ground (arith, others_differ id q rows rest h)

-- With one row for an identifier, the row that a statement meets is the only one it changes.
only_row :
    (id : ℕ) (rows : List Row) (r : Row)
    → Apart same_id rows
    → find_row id rows ≡ some r
    → is_waiting r.status ≡ false
    → any (waits id) rows ≡ false
only_row id [] r a e w = refl
only_row id (q ∷ rows) r (a, apart) e w = elim (Bool-cases (has_id id q)) [
  | inl it ↦ ground (arith, others_differ id q rows a it)
  | inr other ↦ ground (arith, only_row id rows r apart)
]

settled_row :
    (now worker id : ℕ) (cfg : PoolConfig) (pool : Pool) (f : Failure) (t : Table) (r : Row)
    → find_row id t.rows ≡ some r
    → is_running r.status ≡ true
    → r.locked_by ≡ some (worker, pool)
    → f.cancelled ≡ true
    → find_row id (settle now true worker cfg id (some f) t).0.rows
      ≡ some (ended_row JobStatus.cancelled now f.message r)
settled_row now worker id cfg pool f t r e run lock stopped = rw stopped (
    find_row-update id (runs_here worker id) (ended_row JobStatus.cancelled now f.message) t.rows r
      (λ q. refl) e (rw lock (ground (arith, find_row-id id t.rows r e, ==-refl worker))))

-- A running job of an orderly table whose cancellation is granted is asked to end. Its worker finds
-- that out at its next tick, unless it is over its memory limit then: if the handler, its context
-- cancelled, ends with a cancellation, the job is cancelled with the handler's text.
pub cancel_running :
    (now later id worker rss : ℕ) (e : Elsewhere) (t : Table) (r : Row) (cfg : PoolConfig)
    (pool : Pool) (more : List (ℕ × Bool)) (own : Option Failure) (f : Failure)
    → Orderly t
    → find_row id t.rows ≡ some r
    → is_running r.status ≡ true
    → r.locked_by ≡ some (worker, pool)
    → cancellable e r ≡ true
    → (ltb_ℤ (pos 0) cfg.max_rss_mb && ltb_ℤ cfg.max_rss_mb (pos rss)) ≡ false
    → f.cancelled ≡ true
    → find_row id
        (run_job later true worker cfg id
          (record {
            handled = true;
            ticks = (rss, is_cancelled id (request_cancel now e id t).0) ∷ more;
            ended = own;
            stopped = some f;
          })
          (request_cancel now e id t).0).0.rows
      ≡ some (ended_row JobStatus.cancelled later f.message (record r { cancel_requested = true }))
unfolding request_cancel run_job
cancel_running now later id worker rss e t r cfg pool more own f o found run lock granted fits
      stopped =
    let asked =
      find_row-asked now id t.rows r (only_row id t.rows r o.ids_apart found (ground arith)) found
        run in
    rw (found, granted, asked, fits)
      (settled_row later worker id cfg pool f (record t { rows = cancel_rows now id t.rows })
        (record r { cancel_requested = true }) asked run lock stopped)
