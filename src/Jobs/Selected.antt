-- ===== src/Jobs/Selected.antt =====
-- A claim moves the row of the selected job alone (`claimOnce` of internal/jobs/jobs.go).
use sound_dock.Base.{ℕ, ◌≡◌, refl, inl, inr, true, false, ◌&&◌, some, Option-cases, arith}
use sound_dock.Jobs.Pools.{Pool, PoolConfig}
use sound_dock.Jobs.Rows.{Row, Table, is_waiting, has_id}
use sound_dock.Jobs.Runner.{claim_once, claimed, next_job}
use sound_dock.Jobs.Orderly.{Orderly}
use sound_dock.Jobs.Invariant.{chosen-waits}
use sound_dock.Jobs.Moves.{Carries, Carries-update_of, is_selected, Moved, no_one}
use sound_dock.Jobs.Steps.{unchanged}

-- The row of the selected job waits.
abbrev Waits : Row → Row → Type 0
Waits j r = has_id j.id r ≡ (has_id j.id r && is_waiting r.status)

abbrev Selects : Row → Row → Row → Type 0
Selects j = Moved (is_selected (some j)) no_one no_one

missed : (j r : Row) → has_id j.id r ≡ false → Selects j r r
missed j r h = record {
  same_job = (refl, refl, refl);
  same_limit = refl;
  legal = ground arith;
  tried = λ again. ground arith;
  waited = λ it. ground arith;
}

claimed-Selects :
    (now : ℕ) (worker : ℕ × Pool) (cfg : PoolConfig) (j r : Row)
    → Waits j r
    → has_id j.id r ≡ true
    → Selects j r (claimed now worker cfg r)
claimed-Selects now worker cfg j r w h = record {
  same_job = (refl, refl, refl);
  same_limit = refl;
  legal = ground arith;
  tried = λ again. ground arith;
  waited = λ it. ground arith;
}

pub claim_once-Moved :
    (now worker : ℕ) (pool : Pool) (cfg : PoolConfig) (t : Table)
    → Orderly t
    → Carries
        (Moved (is_selected (claim_once now worker pool cfg t).1) no_one no_one)
        t.rows
        (claim_once now worker pool cfg t).0.rows
unfolding claim_once
claim_once-Moved now worker pool cfg t o = elim (Option-cases (next_job now pool t.rows)) [
  | inl no_job ↦ rw no_job (unchanged t)
  | inr (j, chosen) ↦ rw chosen (
      Carries-update_of (Selects j) (Waits j) (has_id j.id) (claimed now (worker, pool) cfg) t.rows
        (chosen-waits now pool t j o chosen) (claimed-Selects now (worker, pool) cfg j)
        (λ r w. missed j r))
]
