-- ===== src/Jobs/Bounds.antt =====
-- The bounds that `clamp` puts on the configuration of a pool, and what `Enforce` refuses
-- (internal/jobs/pools.go).
use sound_dock.Base.{
  at_least, at_most, ◌≤ℤ◌, ℕ, ◌≡◌, ◌↔◌, refl, ap, sym, ◌∙◌, ◌≢◌, ◌+ℤ◌, ℤ, pos, negsuc, ltb_ℤ, Bool,
  true, false, not, ◌&&◌, ◌||◌, Option, none, some, List, [], ◌∷◌, ◌++◌, any, if◌then◌else◌,
  if-true, subst, arith, ok,
}
use sound_dock.Jobs.Pools.{
  Pool, PoolConfig, Configs, reserved, min_timeout, max_timeout, clamp, sanitize, enforce,
  complaints, complaints_of, Complaint, refuse_any, all_pools, clamp_min, clamp_disabled, clamp_max,
  clamp_rest, wanted_workers,
}

abbrev pub IsBetween : ℤ → ℤ → ℤ → Type 0
IsBetween lo hi x = (lo ≤ℤ x) × (x ≤ℤ hi)

-- The least number of workers that a pool must keep.
abbrev pub least_workers : Pool → ℤ
least_workers p = if reserved p then pos 1 else pos 0

pub record InRange (p : Pool) (c : PoolConfig) : Type 0 where
  pub kept_on : reserved p ≡ true → c.enabled ≡ true
  pub least : least_workers p ≤ℤ c.min_workers
  pub most : c.min_workers ≤ℤ c.max_workers
  pub ceiling : c.max_workers ≤ℤ pos 32
  pub some_worker : c.enabled ≡ true → pos 1 ≤ℤ c.max_workers
  pub none_started : c.enabled ≡ false → c.min_workers ≡ pos 0
  pub limit : IsBetween (pos 8) (pos 10000) c.queue_limit
  pub timeout : IsBetween (min_timeout p) (max_timeout p) c.timeout_seconds
  pub priority : IsBetween (pos 1) (pos 100) c.priority
  pub memory : IsBetween (pos 0) (pos 65536) c.max_rss_mb

between : (lo hi x : ℤ) → lo ≤ℤ hi → IsBetween lo hi (at_most hi (at_least lo x))
between lo hi x h = ground arith

within-same : (lo hi x : ℤ) → IsBetween lo hi x → at_most hi (at_least lo x) ≡ x
within-same lo hi x h = ground arith

timeouts : (p : Pool) → min_timeout p ≤ℤ max_timeout p
timeouts p = ground arith

clamp-InRange : (p : Pool) (c : PoolConfig) → InRange p (clamp p c)
unfolding clamp
clamp-InRange p c = record {
  kept_on = ground arith;
  least = ground arith;
  most = ground arith;
  ceiling = ground arith;
  some_worker = ground arith;
  none_started = ground arith;
  limit =
      between (pos 8) (pos 10000) (clamp_max (clamp_disabled p (clamp_min p c))).queue_limit
        (omega arith);
  timeout =
      between (min_timeout p) (max_timeout p)
        (clamp_max (clamp_disabled p (clamp_min p c))).timeout_seconds (timeouts p);
  priority =
      between (pos 1) (pos 100) (clamp_max (clamp_disabled p (clamp_min p c))).priority
        (omega arith);
  memory =
      between (pos 0) (pos 65536) (clamp_max (clamp_disabled p (clamp_min p c))).max_rss_mb
        (omega arith);
}

clamp_min-same : (p : Pool) (c : PoolConfig) → InRange p c → clamp_min p c ≡ c
clamp_min-same p c r = ground (arith, r.kept_on, r.least, r.most, r.ceiling)

clamp_disabled-same : (p : Pool) (c : PoolConfig) → InRange p c → clamp_disabled p c ≡ c
clamp_disabled-same p c r = ground (arith, r.kept_on, r.none_started, r.most)

clamp_max-same : (p : Pool) (c : PoolConfig) → InRange p c → clamp_max c ≡ c
clamp_max-same p c r = ground (arith, r.some_worker, r.most, r.ceiling)

clamp_rest-same : (p : Pool) (c : PoolConfig) → InRange p c → clamp_rest p c ≡ c
clamp_rest-same p c r =
    rw
      (
        within-same (pos 8) (pos 10000) c.queue_limit r.limit,
        within-same (min_timeout p) (max_timeout p) c.timeout_seconds r.timeout,
        within-same (pos 1) (pos 100) c.priority r.priority,
        within-same (pos 0) (pos 65536) c.max_rss_mb r.memory,
      )
      refl

clamp-same : (p : Pool) (c : PoolConfig) → InRange p c → clamp p c ≡ c
unfolding clamp
clamp-same p c r =
    ap (λ x. clamp_rest p (clamp_max (clamp_disabled p x))) (clamp_min-same p c r)
    ∙ ap (λ x. clamp_rest p (clamp_max x)) (clamp_disabled-same p c r)
    ∙ ap (λ x. clamp_rest p x) (clamp_max-same p c r)
    ∙ clamp_rest-same p c r

-- Whatever configuration is asked for, what a pool gets is in range: between its least number of
-- workers (one where it is reserved) and 32, with a maximum no smaller than the minimum and a worker
-- if it is enabled, which a reserved pool is; a queue of 8 to 10,000 jobs; a time limit between those
-- of the pool; a priority of 1 to 100; and at most 65,536 MB. A configuration in range is taken as it
-- is, so that storing and loading it again changes nothing.
pub clamp_fits :
    (p : Pool) (c : PoolConfig)
    → InRange p (clamp p c) × (InRange p c → clamp p c ≡ c) × (clamp p (clamp p c) ≡ clamp p c)
clamp_fits p c = (clamp-InRange p c, clamp-same p c, clamp-same p (clamp p c) (clamp-InRange p c))

-- A configuration that leaves a reserved pool without workers.
abbrev pub starves : Pool → Option PoolConfig → Bool
starves p none = false
starves p (some c) =
    reserved p && (not c.enabled || ltb_ℤ c.min_workers (pos 1) || ltb_ℤ c.max_workers (pos 1))

complaints-none : (p : Pool) (o : Option PoolConfig) → starves p o ≡ false → complaints_of p o ≡ []
complaints-none p none h = refl
complaints-none p (some c) h = ground arith

complaints-some : (p : Pool) (o : Option PoolConfig) → starves p o ≡ true → complaints_of p o ≢ []
complaints-some p none h = cc
complaints-some p (some c) h = ground arith

append-nil : (xs ys : List Complaint) → xs ++ ys ≡ [] → (xs ≡ []) × (ys ≡ [])
append-nil [] ys e = (refl, e)
append-nil (x ∷ xs) ys e = cc

complaints_iff :
    (given : Configs) (ps : List Pool)
    → (complaints given ps ≡ []) ↔ (any (λ p. starves p (given p)) ps ≡ false)
complaints_iff given [] = (λ h. refl, λ h. refl)
complaints_iff given (p ∷ ps) = (
  λ h.
      let (here, there) = append-nil (complaints_of p (given p)) (complaints given ps) h in
      ground (arith, (complaints_iff given ps).0 there, complaints-some p (given p)),
  λ h.
      rw (complaints-none p (given p) (ground arith), (complaints_iff given ps).1 (ground arith))
        refl,
)

refuse_any-ok : (cs : List Complaint) (out : Configs) → (refuse_any cs out ≡ ok out) ↔ (cs ≡ [])
refuse_any-ok [] out = (λ h. refl, λ h. refl)
refuse_any-ok (c ∷ cs) out = (λ h. absurd (ground arith), λ h. absurd (ground arith))

-- `Enforce` accepts a configuration just when it disables no reserved pool and takes the last worker
-- of none, and then makes of it what `Sanitize` makes of it.
pub enforce_iff :
    (given : Configs)
    → (enforce given ≡ ok (sanitize given)) ↔ (any (λ p. starves p (given p)) all_pools ≡ false)
unfolding enforce sanitize
enforce_iff given = (
  λ accepted.
      (complaints_iff given all_pools).0
        ((refuse_any-ok (complaints given all_pools) (sanitize given)).0 accepted),
  λ fine.
      (refuse_any-ok (complaints given all_pools) (sanitize given)).1
        ((complaints_iff given all_pools).1 fine),
)

le-sum : (m : ℤ) (w : ℕ) → m ≤ℤ (m +ℤ pos w)
le-sum (pos n) w = ground arith
le-sum (negsuc n) w = ground arith

workers-IsBetween :
    (l m n s : ℤ) → l ≤ℤ m → m ≤ℤ n → m ≤ℤ s → IsBetween l n (at_least (at_most n s) m)
workers-IsBetween l m n s lo hi sum = ground arith

-- For a pool in range that is enabled, `ensureWorkers` wants at least its least number of workers and
-- at most its maximum, whatever waits.
pub wanted_workers-IsBetween :
    (p : Pool) (c : PoolConfig) (waiting : ℕ)
    → InRange p c
    → c.enabled ≡ true
    → IsBetween (least_workers p) c.max_workers (wanted_workers c (pos waiting))
wanted_workers-IsBetween p c waiting r on =
    subst (IsBetween (least_workers p) c.max_workers)
      (sym (
        if-true c.enabled
          (at_least (at_most c.max_workers (c.min_workers +ℤ pos waiting)) c.min_workers) (pos 0)
          on))
      (workers-IsBetween (least_workers p) c.min_workers c.max_workers
        (c.min_workers +ℤ pos waiting) r.least r.most (le-sum c.min_workers waiting))
