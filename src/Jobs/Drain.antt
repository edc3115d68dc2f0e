-- ===== src/Jobs/Drain.antt =====
-- Workers that keep claiming leave no job behind (internal/jobs/jobs.go).
use sound_dock.Base.{
  ℕ, zero, suc, ◌<◌, ◌≤◌, ◌≡◌, ◌⊎◌, inl, inr, Bool, true, false, ◌&&◌, some, List, [], ◌∷◌, keep,
  All, any, Bool-cases, Option-cases, arith, ==-refl, length,
}
use sound_dock.Jobs.Pools.{Pool, PoolConfig}
use sound_dock.Jobs.Rows.{Row, Table, JobStatus, has_id}
use sound_dock.Jobs.Moves.{Carries, Carries-update, Carries-same, Carries-trans}
use sound_dock.Base.{refl, subst, sym, ◌∙◌}
use sound_dock.Base.{update}
use sound_dock.Jobs.Runner.{is_runnable, next_job, claimed, claim_once}
use sound_dock.Jobs.Claims.{next_job-All, first_of-none, keep-none}

update-le :
    (p q : Row → Bool) (f : Row → Row) (rows : List Row)
    → ((r : Row) → p (f r) ≡ false)
    → length (keep p (update q f rows)) ≤ length (keep p rows)
unfolding update
update-le p q f [] off = omega arith
update-le p q f (r ∷ rows) off = ground (arith, off r, update-le p q f rows off)

-- A statement that takes one of the rows out of a selection, and puts none into it.
update-lt :
    (p q : Row → Bool) (f : Row → Row) (rows : List Row)
    → ((r : Row) → p (f r) ≡ false)
    → any (λ r. q r && p r) rows ≡ true
    → length (keep p (update q f rows)) < length (keep p rows)
unfolding update
update-lt p q f [] off found = cc
update-lt p q f (r ∷ rows) off found =
    ground (arith, off r, update-le p q f rows off, update-lt p q f rows off)

any-false : (p : Row → Bool) (rows : List Row) → any p rows ≡ false → All (λ r. p r ≡ false) rows
any-false p [] h = tt
any-false p (r ∷ rows) h = (ground arith, any-false p rows (ground arith))

next_job-any :
    (now : ℕ) (pool : Pool) (rows : List Row) (j : Row)
    → next_job now pool rows ≡ some j
    → any (λ r. has_id j.id r && is_runnable now pool r) rows ≡ true
next_job-any now pool rows j chosen =
    elim (Bool-cases (any (λ r. has_id j.id r && is_runnable now pool r) rows)) [
      | inl there ↦ there
      | inr missing ↦
          let (other, runnable) =
            next_job-All (λ r. (has_id j.id r && is_runnable now pool r) ≡ false) now pool rows j
              (any-false (λ r. has_id j.id r && is_runnable now pool r) rows missing) chosen in
          absurd (ground (arith, ==-refl j.id))
    ]

claimed-busy :
    (now : ℕ) (pool : Pool) (worker : ℕ × Pool) (cfg : PoolConfig) (r : Row)
    → is_runnable now pool (claimed now worker cfg r) ≡ false
unfolding is_runnable
claimed-busy now pool worker cfg r = ground arith

unfoldable pub claim_times : ℕ → ℕ → ℕ → Pool → PoolConfig → Table → Table
claim_times zero now worker pool cfg t = t
claim_times (suc n) now worker pool cfg t =
    claim_times n now worker pool cfg (claim_once now worker pool cfg t).0

abbrev IsIdle : ℕ → Pool → Table → Type 0
IsIdle now pool t = All (λ r. is_runnable now pool r ≡ false) t.rows

idle-of_le :
    (p : Row → Bool) (rows : List Row) → length (keep p rows) ≤ 0 → All (λ r. p r ≡ false) rows
idle-of_le p [] h = tt
idle-of_le p (r ∷ rows) h = (ground arith, idle-of_le p rows (ground arith))

le-of_idle :
    (p : Row → Bool) (rows : List Row) → All (λ r. p r ≡ false) rows → length (keep p rows) ≤ 0
le-of_idle p [] h = omega arith
le-of_idle p (r ∷ rows) (h, hs) = ground (arith, le-of_idle p rows hs)

-- The table after one claim: nothing changes, or a job less is to run.
claim_once-lt :
    (now worker : ℕ) (pool : Pool) (cfg : PoolConfig) (t : Table)
    → IsIdle now pool t
      ⊎ (length (keep (is_runnable now pool) (claim_once now worker pool cfg t).0.rows)
          < length (keep (is_runnable now pool) t.rows))
unfolding claim_once
claim_once-lt now worker pool cfg t = elim (Option-cases (next_job now pool t.rows)) [
  | inl no_job ↦ inl (
      keep-none (is_runnable now pool) t.rows
        (first_of-none (keep (is_runnable now pool) t.rows) no_job))
  | inr (j, chosen) ↦ inr (
      rw chosen (
        update-lt (is_runnable now pool) (has_id j.id) (claimed now (worker, pool) cfg) t.rows
          (claimed-busy now pool (worker, pool) cfg) (next_job-any now pool t.rows j chosen)))
]

claim_once-le :
    (now worker : ℕ) (pool : Pool) (cfg : PoolConfig) (t : Table)
    → IsIdle now pool t
    → length (keep (is_runnable now pool) (claim_once now worker pool cfg t).0.rows) ≤ 0
unfolding claim_once
claim_once-le now worker pool cfg t none_left = elim (Option-cases (next_job now pool t.rows)) [
  | inl no_job ↦ rw no_job (le-of_idle (is_runnable now pool) t.rows none_left)
  | inr (j, chosen) ↦ rw chosen (
      omega (
        arith,
        le-of_idle (is_runnable now pool) t.rows none_left,
        update-le (is_runnable now pool) (has_id j.id) (claimed now (worker, pool) cfg) t.rows
            (claimed-busy now pool (worker, pool) cfg),
      ))
]

-- A row that the claims left alone, or that runs.
abbrev pub StaysOrRuns : Row → Row → Type 0
StaysOrRuns r q = (q ≡ r) ⊎ (q.status ≡ JobStatus.running)

then_runs : (a b c : Row) → StaysOrRuns a b → StaysOrRuns b c → StaysOrRuns a c
then_runs a b c h (inr runs) = inr runs
then_runs a b c (inl same) (inl e) = inl (e ∙ same)
then_runs a b c (inr runs) (inl e) =
    inr (subst (λ (x : Row). x.status ≡ JobStatus.running) (sym e) runs)

claim_once-StaysOrRuns :
    (now worker : ℕ) (pool : Pool) (cfg : PoolConfig) (t : Table)
    → Carries StaysOrRuns t.rows (claim_once now worker pool cfg t).0.rows
unfolding claim_once
claim_once-StaysOrRuns now worker pool cfg t = elim (Option-cases (next_job now pool t.rows)) [
  | inl no_job ↦ rw no_job (Carries-same StaysOrRuns t.rows (λ r. inl refl))
  | inr (j, chosen) ↦ rw chosen (
      Carries-update StaysOrRuns (has_id j.id) (claimed now (worker, pool) cfg) t.rows
        (λ r it. inr refl) (λ r other. inl refl))
]

claim_times-StaysOrRuns :
    (n now worker : ℕ) (pool : Pool) (cfg : PoolConfig) (t : Table)
    → Carries StaysOrRuns t.rows (claim_times n now worker pool cfg t).rows
unfolding claim_times
claim_times-StaysOrRuns zero now worker pool cfg t = Carries-same StaysOrRuns t.rows (λ r. inl refl)
claim_times-StaysOrRuns (suc n) now worker pool cfg t =
    Carries-trans StaysOrRuns StaysOrRuns StaysOrRuns t.rows
      (claim_once now worker pool cfg t).0.rows
      (claim_times n now worker pool cfg (claim_once now worker pool cfg t).0).rows then_runs
      (claim_once-StaysOrRuns now worker pool cfg t)
      (claim_times-StaysOrRuns n now worker pool cfg (claim_once now worker pool cfg t).0)

claim_times-idle :
    (n now worker : ℕ) (pool : Pool) (cfg : PoolConfig) (t : Table)
    → length (keep (is_runnable now pool) t.rows) ≤ n
    → All (λ r. is_runnable now pool r ≡ false) (claim_times n now worker pool cfg t).rows
unfolding claim_times
claim_times-idle zero now worker pool cfg t enough = idle-of_le (is_runnable now pool) t.rows enough
claim_times-idle (suc n) now worker pool cfg t enough =
    claim_times-idle n now worker pool cfg (claim_once now worker pool cfg t).0
      (elim (claim_once-lt now worker pool cfg t) [
        | inl idle ↦ omega (arith, claim_once-le now worker pool cfg t idle)
        | inr fewer ↦ omega arith
      ])

-- What a row that may be claimed has become.
abbrev pub RunsIf : ℕ → Pool → Row → Row → Type 0
RunsIf now pool r q =
    (is_runnable now pool r ≡ true → q.status ≡ JobStatus.running)
    × ((q ≡ r) ⊎ (q.status ≡ JobStatus.running))

-- A relation of rows, of which the second are known to be idle.
with_idle :
    (now : ℕ) (pool : Pool) (xs ys : List Row)
    → Carries StaysOrRuns xs ys
    → All (λ r. is_runnable now pool r ≡ false) ys
    → Carries (RunsIf now pool) xs ys
with_idle now pool [] ys h idle = tt
with_idle now pool (x ∷ xs) [] h idle = elim h [ ]
with_idle now pool (x ∷ xs) (y ∷ ys) (inl same, hs) (quiet, idle) = (
  ((λ runnable. absurd (clash now pool x y same quiet runnable)), inl same),
  with_idle now pool xs ys hs idle,
)
  where
    clash :
        (now : ℕ) (pool : Pool) (x y : Row)
        → y ≡ x
        → is_runnable now pool y ≡ false
        → is_runnable now pool x ≡ true
        → ⊥
    clash now pool x y same quiet runnable =
        let still = subst (λ r. is_runnable now pool r ≡ false) same quiet in cc
with_idle now pool (x ∷ xs) (y ∷ ys) (inr runs, hs) (quiet, idle) =
    (((λ runnable. runs), inr runs), with_idle now pool xs ys hs idle)

-- As many claims as a pool has jobs to run at a moment leave none of them: each of its jobs that was to
-- run is running then, no job is left that may be claimed, and a row that is not running is as it was.
pub claim_times-drains :
    (n now worker : ℕ) (pool : Pool) (cfg : PoolConfig) (t : Table)
    → length (keep (is_runnable now pool) t.rows) ≤ n
    → Carries (RunsIf now pool) t.rows (claim_times n now worker pool cfg t).rows
      × All (λ r. is_runnable now pool r ≡ false) (claim_times n now worker pool cfg t).rows
claim_times-drains n now worker pool cfg t enough =
    let idle = claim_times-idle n now worker pool cfg t enough in
    (
      with_idle now pool t.rows (claim_times n now worker pool cfg t).rows
          (claim_times-StaysOrRuns n now worker pool cfg t) idle,
      idle,
    )
