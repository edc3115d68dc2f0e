-- ===== src/Jobs/Moves.antt =====
-- How one statement moves each row of the table jobs, as relations between a table and the next.
use sound_dock.Base.{
  ℕ, ◌+◌, ◌≡◌, refl, inl, inr, Bool, true, false, Option, none, some, List, [], ◌∷◌, ◌++◌, All,
  Bool-cases, ◌==◌, arith,
}
use sound_dock.Jobs.Rows.{Row, Table, JobStatus, is_waiting}
use sound_dock.Base.{update}
use sound_dock.Base.{All-every}
use sound_dock.Jobs.Trace.{Op}
use sound_dock.Jobs.Runner.{claim_once}

-- Each row of the first table stands in the second at its place, as a row related to it; rows may
-- follow.
abbrev pub Carries : (Row → Row → Type 0) → List Row → List Row → Type 0
Carries rel [] more = Unit
Carries rel (r ∷ rows) [] = ⊥
Carries rel (r ∷ rows) (q ∷ more) = rel r q × Carries rel rows more

-- The rows may have a property `P`, of which the relation makes use.
pub Carries-update_of :
    (rel : Row → Row → Type 0) (P : Row → Type 0) (p : Row → Bool) (f : Row → Row) (rows : List Row)
    → All P rows
    → ((r : Row) → P r → p r ≡ true → rel r (f r))
    → ((r : Row) → P r → p r ≡ false → rel r r)
    → Carries rel rows (update p f rows)
unfolding update
Carries-update_of rel P p f [] have hit miss = tt
Carries-update_of rel P p f (r ∷ rows) (h, hs) hit miss = (
  elim (Bool-cases (p r)) [
    | inl holds_it ↦ rw holds_it (hit r h holds_it)
    | inr fails ↦ rw fails (miss r h fails)
  ],
  Carries-update_of rel P p f rows hs hit miss,
)

pub Carries-update :
    (rel : Row → Row → Type 0) (p : Row → Bool) (f : Row → Row) (rows : List Row)
    → ((r : Row) → p r ≡ true → rel r (f r))
    → ((r : Row) → p r ≡ false → rel r r)
    → Carries rel rows (update p f rows)
Carries-update rel p f rows hit miss =
    Carries-update_of rel (λ r. Unit) p f rows (All-every (λ r. Unit) rows (λ r. tt)) (λ r u. hit r)
      (λ r u. miss r)

pub Carries-same :
    (rel : Row → Row → Type 0) (rows : List Row) → ((r : Row) → rel r r) → Carries rel rows rows
Carries-same rel [] same = tt
Carries-same rel (r ∷ rows) same = (same r, Carries-same rel rows same)

pub Carries-append :
    (rel : Row → Row → Type 0) (rows more : List Row)
    → ((r : Row) → rel r r)
    → Carries rel rows (rows ++ more)
Carries-append rel [] more same = tt
Carries-append rel (r ∷ rows) more same = (same r, Carries-append rel rows more same)

pub Carries-trans :
    (first second rel : Row → Row → Type 0) (xs ys zs : List Row)
    → ((a b c : Row) → first a b → second b c → rel a c)
    → Carries first xs ys
    → Carries second ys zs
    → Carries rel xs zs
Carries-trans first second rel [] ys zs join h g = tt
Carries-trans first second rel (x ∷ xs) [] zs join h g = elim h [ ]
Carries-trans first second rel (x ∷ xs) (y ∷ ys) [] join h g = elim g [ ]
Carries-trans first second rel (x ∷ xs) (y ∷ ys) (z ∷ zs) join (h, hs) (g, gs) =
    (join x y z h g, Carries-trans first second rel xs ys zs join hs gs)

-- What the next table knows of each row, told of the row before.
pub Carries-back :
    (rel : Row → Row → Type 0) (P Q : Row → Type 0) (xs ys : List Row)
    → ((a b : Row) → rel a b → Q b → P a)
    → Carries rel xs ys
    → All Q ys
    → All P xs
Carries-back rel P Q [] ys back h g = tt
Carries-back rel P Q (x ∷ xs) [] back h g = elim h [ ]
Carries-back rel P Q (x ∷ xs) (y ∷ ys) back (h, hs) (g, gs) =
    (back x y h g, Carries-back rel P Q xs ys back hs gs)

-- The identifiers that a statement claims, and those that it queues again.
abbrev pub is_selected : Option Row → ℕ → Bool
is_selected none id = false
is_selected (some j) id = j.id == id

unfoldable pub claims : Op → Table → ℕ → Bool
claims (Op.claimed now worker pool cfg) t id = is_selected (claim_once now worker pool cfg t).1 id
claims _ t id = false

abbrev pub requeues : Op → ℕ → Bool
requeues (Op.retried now retried_id) id = retried_id == id
requeues _ id = false

-- The jobs that a worker without a handler for their type writes off.
abbrev pub writes_off : Op → ℕ → Bool
writes_off (Op.unhandled now alive lost_id) id = lost_id == id
writes_off _ id = false

-- The moves of a status in one statement; `again` is whether the statement is a retry of the job, and
-- `lost` whether it is the write of a worker without a handler, which fails a job in any status.
abbrev pub may_move : Bool → Bool → JobStatus → JobStatus → Bool
may_move again lost JobStatus.queued JobStatus.queued = true
may_move again lost JobStatus.queued JobStatus.running = true
may_move again lost JobStatus.queued JobStatus.cancelled = true
may_move again lost JobStatus.retry JobStatus.retry = true
may_move again lost JobStatus.retry JobStatus.running = true
may_move again lost JobStatus.retry JobStatus.cancelled = true
may_move again lost JobStatus.running JobStatus.queued = false
may_move again lost JobStatus.running _ = true
may_move again lost JobStatus.completed JobStatus.completed = true
may_move again lost JobStatus.failed JobStatus.failed = true
may_move again lost JobStatus.failed JobStatus.queued = again
may_move again lost JobStatus.cancelled JobStatus.cancelled = true
may_move again lost JobStatus.cancelled JobStatus.queued = again
may_move again lost _ JobStatus.failed = lost
may_move again lost _ _ = false

abbrev pub one_if : Bool → ℕ
one_if true = 1
one_if false = 0

-- The row after a statement: the same job, its status moved as it may be, its attempts one more if it
-- was claimed, unless it is queued again; and it waited if it was claimed.
pub record Moved (claimed again lost : ℕ → Bool) (r q : Row) : Type 0 where
  pub same_job : (q.id ≡ r.id) × (q.kind ≡ r.kind) × (q.pool ≡ r.pool)
  pub same_limit : q.max_attempts ≡ r.max_attempts
  pub legal : may_move (again r.id) (lost r.id) r.status q.status ≡ true
  pub tried : again r.id ≡ false → q.attempts ≡ r.attempts + one_if (claimed r.id)
  pub waited : claimed r.id ≡ true → is_waiting r.status ≡ true

abbrev pub no_one : ℕ → Bool
no_one id = false

abbrev pub Unclaimed : Row → Row → Type 0
Unclaimed = Moved no_one no_one no_one

pub Unclaimed-refl : (r : Row) → Unclaimed r r
Unclaimed-refl r = record {
  same_job = (refl, refl, refl);
  same_limit = refl;
  legal = ground arith;
  tried = λ h. omega arith;
  waited = λ h. absurd (ground arith);
}
