-- ===== src/Jobs/Claims.antt =====
-- Which job `claimOnce` selects (internal/jobs/jobs.go).
use sound_dock.Base.{
  ◌≤ℤ◌, ◌≤◌, eq_ℤ, eq_ℤ-refl, subst, ℕ, ◌≡◌, ◌⊎◌, refl, inl, inr, subst, Bool, true, false, Option,
  none, some, List, [], ◌∷◌, keep, All, Bool-cases, Option-cases, arith,
}
use sound_dock.Jobs.Pools.{Pool, PoolConfig}
use sound_dock.Jobs.Rows.{Row, Table, has_id}
use sound_dock.Base.{update}
use sound_dock.Jobs.Runner.{
  is_runnable, goes_before, better, first_of, next_job, claimed, claim_once,
}
use sound_dock.Jobs.Rows.{JobStatus}
use sound_dock.Jobs.Runner.{lock_secs}
use sound_dock.Jobs.Moves.{Carries, Carries-update}
use sound_dock.Base.{◌+◌, All-imp, All-keep, All-every}

better-All :
    (P : Row → Type 0) (r : Row) (o : Option Row)
    → P r
    → ((q : Row) → o ≡ some q → P q)
    → P (better r o)
better-All P r none h g = h
better-All P r (some q) h g = elim (Bool-cases (goes_before q r)) [
  | inl first ↦ rw first (g q refl)
  | inr later ↦ rw later h
]

pub first_of-All :
    (P : Row → Type 0) (rows : List Row) (j : Row) → All P rows → first_of rows ≡ some j → P j
first_of-All P [] j h e = cc
first_of-All P (r ∷ rows) j (h, hs) e =
    subst P (ground arith)
      (better-All P r (first_of rows) h (λ q found. first_of-All P rows q hs found))

-- The selected job is one of the table's, whatever holds of them, and it may be claimed.
pub next_job-All :
    (P : Row → Type 0) (now : ℕ) (pool : Pool) (rows : List Row) (j : Row)
    → All P rows
    → next_job now pool rows ≡ some j
    → P j × (is_runnable now pool j ≡ true)
next_job-All P now pool rows j h e =
    first_of-All (λ r. P r × (is_runnable now pool r ≡ true)) (keep (is_runnable now pool) rows) j
      (All-keep P (is_runnable now pool) rows h) e

goes_before_refl : (a : Row) → goes_before a a ≡ false
goes_before_refl a = ground arith

-- What does not go before the second of two, the second going before the first, does not go before
-- the first.
goes_before_trans :
    (a b c : Row) → goes_before a b ≡ false → goes_before b c ≡ false → goes_before a c ≡ false
goes_before_trans a b c h g = ground arith

goes_before_asym : (a b : Row) → goes_before a b ≡ true → goes_before b a ≡ false
goes_before_asym a b h = ground arith

abbrev pub IsFirst : Row → List Row → Type 0
IsFirst j rows = All (λ r. goes_before r j ≡ false) rows

pub first_of-none : (rows : List Row) → first_of rows ≡ none → rows ≡ []
first_of-none [] e = refl
first_of-none (r ∷ rows) e = cc

better-IsFirst :
    (r : Row) (rows : List Row) (o : Option Row)
    → first_of rows ≡ o
    → ((q : Row) → first_of rows ≡ some q → IsFirst q rows)
    → IsFirst (better r o) (r ∷ rows)
better-IsFirst r rows none e g = rw (first_of-none rows e) (goes_before_refl r, tt)
better-IsFirst r rows (some q) e g = elim (Bool-cases (goes_before q r)) [
  | inl before ↦
      subst (λ x. IsFirst x (r ∷ rows)) {x = q} {y = better r (some q)} (ground arith)
        (goes_before_asym q r before, g q e)
  | inr after ↦
      subst (λ x. IsFirst x (r ∷ rows)) {x = r} {y = better r (some q)} (ground arith)
        (
          goes_before_refl r,
          All-imp (λ x. goes_before x q ≡ false) (λ x. goes_before x r ≡ false) rows
              (λ x h. goes_before_trans x q r h after) (g q e),
        )
]

first_of-IsFirst : (rows : List Row) (j : Row) → first_of rows ≡ some j → IsFirst j rows
first_of-IsFirst [] j e = cc
first_of-IsFirst (r ∷ rows) j e =
    subst (λ x. IsFirst x (r ∷ rows)) {x = better r (first_of rows)} {y = j} (ground arith)
      (better-IsFirst r rows (first_of rows) refl (λ q. first_of-IsFirst rows q))

All-of_keep :
    (P : Row → Type 0) (p : Row → Bool) (rows : List Row)
    → All P (keep p rows)
    → All (λ r. p r ≡ true → P r) rows
All-of_keep P p [] h = tt
All-of_keep P p (r ∷ rows) h = elim (Bool-cases (p r)) [
  | inl kept ↦
      let both : P r × All P (keep p rows) = subst (All P) {y = r ∷ keep p rows} (rw kept refl) h in
      (λ e. both.0, All-of_keep P p rows both.1)
  | inr gone ↦ (
    λ e. absurd (ground arith),
    All-of_keep P p rows (subst (All P) {y = keep p rows} (rw gone refl) h),
  )
]

pub keep-none : (p : Row → Bool) (rows : List Row) → keep p rows ≡ [] → All (λ r. p r ≡ false) rows
keep-none p [] e = tt
keep-none p (r ∷ rows) e = elim (Bool-cases (p r)) [
  | inl kept ↦ absurd (ground arith)
  | inr gone ↦ (gone, keep-none p rows (ground arith))
]

-- `a` does not come before `b` by priority and then by age.
abbrev pub IsNoBefore : Row → Row → Type 0
IsNoBefore a b =
    (a.priority ≤ℤ b.priority) × (a.priority ≡ b.priority → b.created_at ≤ a.created_at)

goes_before-false : (a b : Row) → goes_before a b ≡ false → IsNoBefore a b
goes_before-false a b h = (
  ground arith,
  λ same.
      let alike : eq_ℤ a.priority b.priority ≡ true =
        subst (λ n. eq_ℤ a.priority n ≡ true) same (eq_ℤ-refl a.priority) in
      ground arith,
)

-- The selected row once it is claimed: it runs, locked by the worker, and was tried once more.
pub record IsClaimed (now : ℕ) (worker : ℕ × Pool) (cfg : PoolConfig) (r q : Row) : Type 0 where
  pub same : (q.id ≡ r.id) × (q.kind ≡ r.kind) × (q.payload ≡ r.payload)
  pub runs : q.status ≡ JobStatus.running
  pub by : q.locked_by ≡ some worker
  pub until : q.locked_until ≡ some (now + lock_secs cfg)
  pub tried : q.attempts ≡ r.attempts + 1
  pub started : q.started_at ≡ some now

-- A row after the claim of a job: claimed if it is the job, and as it was if not.
abbrev pub ClaimsOnly : ℕ → ℕ × Pool → PoolConfig → Row → Row → Row → Type 0
ClaimsOnly now worker cfg j r q =
    (has_id j.id r ≡ true → IsClaimed now worker cfg r q) × (has_id j.id r ≡ false → q ≡ r)

claims_only :
    (now : ℕ) (worker : ℕ × Pool) (cfg : PoolConfig) (j : Row) (rows : List Row)
    → Carries
        (ClaimsOnly now worker cfg j)
        rows
        (update (has_id j.id) (claimed now worker cfg) rows)
claims_only now worker cfg j rows =
    Carries-update (ClaimsOnly now worker cfg j) (has_id j.id) (claimed now worker cfg) rows
      (λ r it. (
        (λ e. record {
          same = (refl, refl, refl);
          runs = refl;
          by = refl;
          until = refl;
          tried = refl;
          started = refl;
        }),
        (λ e. absurd (ground arith)),
      ))
      (λ r other. ((λ e. absurd (ground arith)), (λ e. refl)))

-- What a worker of a pool claims at a moment. Either no job of the pool may be claimed, and nothing
-- changes. Or the worker gets a job of the pool that may be claimed, and every other one that may has
-- no higher priority and, of the same priority, is no older; each row with its identifier then runs,
-- locked by the worker for the pool's time, and tried once more; and every other row is as it was.
pub claim_once-first :
    (now worker : ℕ) (pool : Pool) (cfg : PoolConfig) (t : Table)
    → ((claim_once now worker pool cfg t ≡ (t, none))
        × All (λ r. is_runnable now pool r ≡ false) t.rows)
      ⊎ ((j : Row) × ((claim_once now worker pool cfg t).1 ≡ some j)
          × (is_runnable now pool j ≡ true)
          × All (λ r. is_runnable now pool r ≡ true → IsNoBefore r j) t.rows
          × Carries
              (ClaimsOnly now (worker, pool) cfg j)
              t.rows
              (claim_once now worker pool cfg t).0.rows)
unfolding claim_once
claim_once-first now worker pool cfg t = elim (Option-cases (next_job now pool t.rows)) [
  | inl no_job ↦ inl (
    rw no_job refl,
    keep-none (is_runnable now pool) t.rows
        (first_of-none (keep (is_runnable now pool) t.rows) no_job),
  )
  | inr (j, chosen) ↦ inr (
    j,
    rw chosen refl,
    (next_job-All (λ r. Unit) now pool t.rows j (All-every (λ r. Unit) t.rows (λ r. tt)) chosen).1,
    All-of_keep (λ r. IsNoBefore r j) (is_runnable now pool) t.rows
        (All-imp (λ r. goes_before r j ≡ false) (λ r. IsNoBefore r j)
          (keep (is_runnable now pool) t.rows) (λ r. goes_before-false r j)
          (first_of-IsFirst (keep (is_runnable now pool) t.rows) j chosen)),
    rw chosen (claims_only now (worker, pool) cfg j t.rows),
  )
]
