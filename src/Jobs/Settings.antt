-- ===== src/Jobs/Settings.antt =====
-- internal/jobs/jobs.go: the configurations that a runner works with, and those stored under the key
-- `worker_pools` of server_settings. The stored value is `none` where it is missing or no JSON of
-- configurations; a write may fail.
use sound_dock.Base.{
  ℤ, pos, ltb_ℤ, Bool, true, false, not, ◌&&◌, Option, none, some, if◌then◌else◌, Result, ok, err,
  List,
}
use sound_dock.Jobs.Pools.{
  Pool, PoolConfig, Configs, Complaint, default_config, merge, sanitize, enforce, get_or,
}

-- `cfg` and `target` of every poolRuntime.
pub record Runtimes : Type 0 where
  pub cfg : Pool → PoolConfig
  pub target : Pool → ℤ

-- `New`.
abbrev pub new_runtimes : Runtimes
new_runtimes = record { cfg = default_config; target = λ p. (default_config p).min_workers }

-- `setConfigs`, for a map that has every pool.
abbrev pub idle_target : PoolConfig → ℤ
idle_target c = if c.enabled then c.min_workers else pos 0

abbrev pub set_configs : Configs → Runtimes → Runtimes
set_configs cfg r = record {
  cfg = λ p. get_or (r.cfg p) (cfg p);
  target = λ p. idle_target (get_or (r.cfg p) (cfg p));
}

-- An old, small limit of the sync pool is raised.
abbrev pub is_small : Option PoolConfig → Bool
is_small none = false
is_small (some c) = ltb_ℤ (pos 0) c.queue_limit && not (ltb_ℤ (pos 16) c.queue_limit)

abbrev pub raised : Option PoolConfig → Option PoolConfig
raised none = none
raised (some c) = some (record c { queue_limit = pos 256 })

abbrev pub bump_sync : Configs → Configs
bump_sync overlay Pool.sync =
    if is_small (overlay Pool.sync) then raised (overlay Pool.sync) else overlay Pool.sync
bump_sync overlay p = overlay p

abbrev pub defaults : Configs
defaults p = some (default_config p)

abbrev pub stored_configs : Configs → Configs
stored_configs overlay = sanitize (merge defaults (bump_sync overlay))

-- `Load`: the stored value afterwards, and the runtimes. `saved` is whether the write succeeds.
pub load : Bool → Option Configs → Runtimes → Option Configs × Runtimes
load saved none r = (none, set_configs defaults r)
load saved (some overlay) r = (
  if is_small (overlay Pool.sync) && saved then some (stored_configs overlay) else some overlay,
  set_configs (stored_configs overlay) r,
)

pub data ApplyError : Type 0 where
  refused : List Complaint → ApplyError
  not_saved : ApplyError

abbrev pub all_configs : Runtimes → Configs
all_configs r p = some (r.cfg p)

abbrev pub save :
    Bool
    → Configs
    → Option Configs
    → Runtimes
    → (Option Configs × Runtimes) × Result ApplyError Configs
save true cfg stored r = ((some cfg, set_configs cfg r), ok cfg)
save false cfg stored r = ((stored, r), err ApplyError.not_saved)

abbrev pub save_accepted :
    Bool
    → Result (List Complaint) Configs
    → Option Configs
    → Runtimes
    → (Option Configs × Runtimes) × Result ApplyError Configs
save_accepted saved (err complaints) stored r = ((stored, r), err (ApplyError.refused complaints))
save_accepted saved (ok cfg) stored r = save saved cfg stored r

-- `Apply`.
pub apply_configs :
    Bool
    → Configs
    → Option Configs
    → Runtimes
    → (Option Configs × Runtimes) × Result ApplyError Configs
apply_configs saved given stored r =
    save_accepted saved (enforce (merge (all_configs r) given)) stored r
