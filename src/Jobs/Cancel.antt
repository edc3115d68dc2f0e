-- ===== src/Jobs/Cancel.antt =====
-- internal/jobs/cancel.go: which jobs may be cancelled. The rows of acquisition_intents and
-- retention_runs that it reads belong to other components and are arguments.
use sound_dock.Base.{
  ℕ, ℤ, pos, eq_ℤ, ltb_ℤ, Bool, true, false, not, ◌&&◌, ◌||◌, List, [], ◌∷◌, String, str_eq,
  if◌then◌else◌, ltb, trim_space, one_of, lowers_to, lowers_to_one_of,
}

-- `Extra`.
pub record Extra : Type 0 where
  pub fetch_stage : String
  pub retention_deleted : ℤ
  pub stats_swap_started : Bool

abbrev pub no_extra : Extra
no_extra = record { fetch_stage = ""; retention_deleted = pos 0; stats_swap_started = false }

-- `typeAllowlisted`.
abbrev pub type_allowlisted : String → Bool
type_allowlisted kind =
    one_of
      ("scapex.fetch" ∷ "tracks.metadata" ∷ "library.scan" ∷ "scan.duplicates" ∷ "lyrics.fetch"
        ∷ "lyrics.generate" ∷ "maintenance.retention" ∷ "stats.rebuild" ∷ "metadata.refresh" ∷ [])
      (trim_space kind)

-- `fetchCommitted`.
abbrev pub fetch_committed : String → Bool
fetch_committed stage =
    lowers_to_one_of ("processing" ∷ "scanning" ∷ "ready" ∷ "applied" ∷ []) (trim_space stage)

-- The cases of the switch on the type.
abbrev pub allow_fetch : Bool → ℤ → Extra → Bool
allow_fetch running progress extra =
    if fetch_committed extra.fetch_stage
    then false
    else not (running && str_eq extra.fetch_stage "" && not (ltb_ℤ progress (pos 50)))

abbrev pub allow_retention : Bool → ℤ → Extra → Bool
allow_retention running progress extra =
    if not running then true else eq_ℤ extra.retention_deleted (pos 0) && eq_ℤ progress (pos 0)

abbrev pub allow_type : String → Bool → ℤ → Extra → Bool
allow_type kind running progress extra =
    if str_eq kind "scapex.fetch"
    then allow_fetch running progress extra
    else (if one_of
          ("library.scan" ∷ "tracks.metadata" ∷ "scan.duplicates" ∷ "lyrics.fetch"
            ∷ "lyrics.generate" ∷ "metadata.refresh" ∷ [])
          kind
        then true
        else (if str_eq kind "maintenance.retention"
            then allow_retention running progress extra
            else (if str_eq kind "stats.rebuild"
                then not (running || extra.stats_swap_started)
                else false)))

-- `AllowCancel`.
unfoldable pub allow_cancel : String → String → ℤ → Extra → Bool
allow_cancel kind status progress extra =
    if lowers_to_one_of ("queued" ∷ "retry" ∷ "running" ∷ []) (trim_space status)
      && type_allowlisted kind
    then allow_type (trim_space kind) (lowers_to (trim_space status) "running") progress extra
    else false

-- `MayCancel`.
abbrev pub may_cancel : String → String → ℤ → Bool
may_cancel kind status progress = allow_cancel kind status progress no_extra

-- The ORDER BY of `fetchStage`.
abbrev pub stage_rank : String → ℕ
stage_rank stage =
    if str_eq stage "applied"
    then 0
    else (if str_eq stage "ready"
        then 1
        else (if str_eq stage "scanning"
            then 2
            else (if str_eq stage "processing"
                then 3
                else (if str_eq stage "downloading" then 4 else 5))))

abbrev pub furthest : String → List String → String
furthest stage [] = stage
furthest stage (s ∷ stages) =
    let rest = furthest s stages in if ltb (stage_rank rest) (stage_rank stage) then rest else stage

-- `fetchStage`: the furthest of the job's intents, and the empty text where it has none.
abbrev pub fetch_stage_of : List String → String
fetch_stage_of [] = ""
fetch_stage_of (s ∷ stages) = furthest s stages

-- `retentionDeleted`: of the job's latest run.
abbrev pub retention_deleted_of : List ℤ → ℤ
retention_deleted_of [] = pos 0
retention_deleted_of (n ∷ older) = n

-- What the other components hold of a job: the stages of its intents, and the counts of its
-- retention runs, the latest first.
pub record Elsewhere : Type 0 where
  pub intents : ℕ → List String
  pub retention_runs : ℕ → List ℤ

-- `cancelExtra`.
abbrev pub cancel_extra : Elsewhere → String → ℕ → Extra
cancel_extra e kind id =
    if str_eq kind "scapex.fetch"
    then record no_extra { fetch_stage = fetch_stage_of (e.intents id) }
    else (if str_eq kind "maintenance.retention"
        then record no_extra { retention_deleted = retention_deleted_of (e.retention_runs id) }
        else no_extra)
