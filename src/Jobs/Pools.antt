-- ===== src/Jobs/Pools.antt =====
-- internal/jobs/pools.go: the five pools, their configuration and its bounds, and the pool of a type
-- of job. A Go `int` is an integer. The text of a pool is always one of the five, since every reader
-- goes through `All`.
use text.Mathlib.Text.{starts_with}
use sound_dock.Base.{
  at_least, at_most, ℕ, ℤ, pos, ltb_ℤ, ◌+ℤ◌, Bool, true, false, not, ◌&&◌, ◌||◌, Option, none, some,
  List, [], ◌∷◌, ◌++◌, String, str_eq, if◌then◌else◌, Result, ok, err,
}

pub data Pool : Type 0 where
  playback search acquisition sync maintenance : Pool

pub record PoolConfig : Type 0 where
  pub enabled : Bool
  pub min_workers : ℤ
  pub max_workers : ℤ
  pub queue_limit : ℤ
  pub timeout_seconds : ℤ
  pub priority : ℤ
  pub max_rss_mb : ℤ

-- `All`.
abbrev pub all_pools : List Pool
all_pools = Pool.playback ∷ Pool.search ∷ Pool.acquisition ∷ Pool.sync ∷ Pool.maintenance ∷ []

abbrev pub reserved : Pool → Bool
reserved Pool.playback = true
reserved Pool.search = true
reserved _ = false

abbrev pub name : Pool → String
name Pool.playback = "Playback"
name Pool.search = "Search"
name Pool.acquisition = "Acquisition"
name Pool.sync = "Sync"
name Pool.maintenance = "Maintenance"

-- A literal of `DefaultConfigs`: every pool is enabled.
abbrev config : ℕ → ℕ → ℕ → ℕ → ℕ → ℕ → PoolConfig
config least most limit timeout priority rss = record {
  enabled = true;
  min_workers = pos least;
  max_workers = pos most;
  queue_limit = pos limit;
  timeout_seconds = pos timeout;
  priority = pos priority;
  max_rss_mb = pos rss;
}

abbrev pub default_config : Pool → PoolConfig
default_config Pool.playback = config 1 2 64 30 100 0
default_config Pool.search = config 1 2 64 20 90 0
default_config Pool.acquisition = config 0 2 32 300 40 512
default_config Pool.sync = config 0 2 256 600 50 0
default_config Pool.maintenance = config 0 2 64 3600 20 256

-- `typePools`.
abbrev pub type_pools : List (String × Pool)
type_pools =
    ("party.expire", Pool.playback)
    ∷ ("radio.refresh", Pool.playback)
    ∷ ("search.youtube", Pool.search)
    ∷ ("scapex.fetch", Pool.acquisition)
    ∷ ("ingest.url", Pool.acquisition)
    ∷ ("external.playlist.import", Pool.sync)
    ∷ ("external.playlist.tick", Pool.sync)
    ∷ ("library.scan", Pool.maintenance)
    ∷ ("library.migrate", Pool.maintenance)
    ∷ ("library.merge", Pool.maintenance)
    ∷ ("library.delete", Pool.maintenance)
    ∷ ("ingest.zip", Pool.maintenance)
    ∷ ("tracks.bulk_delete", Pool.maintenance)
    ∷ ("tracks.metadata", Pool.maintenance)
    ∷ ("metadata.refresh", Pool.maintenance)
    ∷ ("lyrics.fetch", Pool.maintenance)
    ∷ ("lyrics.generate", Pool.maintenance)
    ∷ ("scan.duplicates", Pool.maintenance)
    ∷ ("maintenance.retention", Pool.maintenance)
    ∷ ("maintenance.archive", Pool.maintenance)
    ∷ ("maintenance.gc-cache", Pool.maintenance)
    ∷ ("backup.run", Pool.maintenance)
    ∷ ("app.update.apply", Pool.maintenance)
    ∷ ("app.update.check", Pool.maintenance)
    ∷ ("waveform.generate", Pool.maintenance)
    ∷ ("fingerprint.generate", Pool.maintenance)
    ∷ ("integrity.scan", Pool.maintenance)
    ∷ ("smart_playlist.refresh", Pool.maintenance)
    ∷ []

abbrev pub lookup_pool : List (String × Pool) → String → Option Pool
lookup_pool [] kind = none
lookup_pool ((k, pool) ∷ rest) kind = if str_eq k kind then some pool else lookup_pool rest kind

abbrev pub pool_by_prefix : String → Pool
pool_by_prefix kind =
    if starts_with kind "search."
    then Pool.search
    else (if starts_with kind "scapex." || starts_with kind "ingest."
        then Pool.acquisition
        else (if starts_with kind "external." then Pool.sync else Pool.maintenance))

abbrev pub known_or_prefix : Option Pool → String → Pool
known_or_prefix (some pool) kind = pool
known_or_prefix none kind = pool_by_prefix kind

unfoldable pub pool_for_type : String → Pool
pool_for_type kind = known_or_prefix (lookup_pool type_pools kind) kind

abbrev pub Configs : Type 0
Configs = Pool → Option PoolConfig

abbrev pub get_or : PoolConfig → Option PoolConfig → PoolConfig
get_or c none = c
get_or c (some got) = got

-- `Merge`, which starts from `DefaultConfigs`.
unfoldable pub merge : Configs → Configs → Configs
merge base overlay p = some (get_or (get_or (default_config p) (base p)) (overlay p))

-- `minT, maxT`.
abbrev pub min_timeout : Pool → ℤ
min_timeout Pool.playback = pos 10
min_timeout Pool.search = pos 5
min_timeout _ = pos 30

abbrev pub max_timeout : Pool → ℤ
max_timeout Pool.playback = pos 120
max_timeout Pool.search = pos 120
max_timeout Pool.acquisition = pos 3600
max_timeout Pool.sync = pos 3600
max_timeout Pool.maintenance = pos 7200

-- `clamp`, the statements before those on the maximum of workers.
abbrev pub clamp_min : Pool → PoolConfig → PoolConfig
clamp_min p c =
    if reserved p
    then record c {
      enabled = true;
      min_workers = at_most (pos 32) (at_least (pos 1) c.min_workers);
    }
    else record c { min_workers = at_most (pos 32) (at_least (pos 0) c.min_workers) }

abbrev pub clamp_disabled : Pool → PoolConfig → PoolConfig
clamp_disabled p c =
    if not c.enabled && not (reserved p)
    then record c { min_workers = pos 0; max_workers = at_least (pos 0) c.max_workers }
    else c

abbrev pub clamp_max : PoolConfig → PoolConfig
clamp_max c =
    let most = if c.enabled then at_least (pos 1) c.max_workers else c.max_workers in
    record c { max_workers = at_most (pos 32) (at_least c.min_workers most) }

abbrev pub clamp_rest : Pool → PoolConfig → PoolConfig
clamp_rest p c = record c {
  queue_limit = at_most (pos 10000) (at_least (pos 8) c.queue_limit);
  timeout_seconds = at_most (max_timeout p) (at_least (min_timeout p) c.timeout_seconds);
  priority = at_most (pos 100) (at_least (pos 1) c.priority);
  max_rss_mb = at_most (pos 65536) (at_least (pos 0) c.max_rss_mb);
}

unfoldable pub clamp : Pool → PoolConfig → PoolConfig
clamp p c = clamp_rest p (clamp_max (clamp_disabled p (clamp_min p c)))

unfoldable pub sanitize : Configs → Configs
unfolding clamp
sanitize given p = some (clamp p (get_or (default_config p) (given p)))

-- What `Enforce` says of one pool.
pub data Complaint : Type 0 where
  disabled no_worker no_maximum : Pool → Complaint

abbrev pub complain : Bool → Complaint → List Complaint
complain true c = c ∷ []
complain false c = []

abbrev pub complaints_of : Pool → Option PoolConfig → List Complaint
complaints_of p none = []
complaints_of p (some got) =
    if reserved p
    then complain (not got.enabled) (Complaint.disabled p)
      ++ complain (ltb_ℤ got.min_workers (pos 1)) (Complaint.no_worker p)
      ++ complain (ltb_ℤ got.max_workers (pos 1)) (Complaint.no_maximum p)
    else []

abbrev pub complaints : Configs → List Pool → List Complaint
complaints given [] = []
complaints given (p ∷ ps) = complaints_of p (given p) ++ complaints given ps

abbrev pub refuse_any : List Complaint → Configs → Result (List Complaint) Configs
refuse_any [] out = ok out
refuse_any (c ∷ cs) out = err (c ∷ cs)

-- `Enforce`; the configuration beside an error is not used.
unfoldable pub enforce : Configs → Result (List Complaint) Configs
unfolding clamp
enforce given =
    refuse_any (complaints given all_pools)
      (λ p. some (clamp p (get_or (default_config p) (given p))))

-- The workers that a pool should have, by `ensureWorkers`, for a queue of `waiting` jobs and items.
abbrev pub wanted_workers : PoolConfig → ℤ → ℤ
wanted_workers c waiting =
    if c.enabled
    then at_least (at_most c.max_workers (c.min_workers +ℤ waiting)) c.min_workers
    else pos 0
