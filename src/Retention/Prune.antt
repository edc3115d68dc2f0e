-- ===== src/Retention/Prune.antt =====
-- internal/retention/engine.go: a run of the retention, and its preview.
use sound_dock.Base.{
  take, length, ℕ, suc, ◌*◌, ℤ, pos, ltb_ℤ, at_least, at_most, add_int64, sub_int64, floor_zero,
  Bool, false, not, ◌&&◌, ◌||◌, Option, none, some, List, [], ◌∷◌, if◌then◌else◌,
}
use sound_dock.Retention.Policy.{Policy, low_water, free_target, is_disabled, is_age, is_hybrid}
use sound_dock.Retention.Candidates.{
  Media, Busy, Disk, age_eligible, storage_pressure, free_pressure, candidates, is_unplayed,
}

-- `candidateReason`.
pub data Reason : Type 0 where
  never_played idle pressure : Reason

abbrev pub candidate_reason : ℕ → Policy → Media → Reason
candidate_reason now p m =
    if is_unplayed m
    then Reason.never_played
    else (if age_eligible now p m then Reason.idle else Reason.pressure)

-- `fetchLimit`.
abbrev pub fetch_limit : Policy → ℤ
fetch_limit p = at_most (pos 500) (at_least (pos 50) (pos (floor_zero p.batch_size * 5)))

-- What `takeBatch` and `prune` compute before their loops.
pub record Goal : Type 0 where
  pub need_storage : Bool
  pub need_free : Bool
  pub age_only : Bool
  pub low : ℤ
  pub target : ℤ
  pub disk : Disk

abbrev pub goal_of : Policy → Disk → Goal
goal_of p disk =
    let st = storage_pressure p disk.managed in
    let fs = free_pressure p disk.free in
    record {
      need_storage = st;
      need_free = fs;
      age_only = is_age p.mode || (is_hybrid p.mode && not st && not fs);
      low = low_water p;
      target = free_target p;
      disk = disk;
    }

-- `underStorage && underFree`, with so many bytes reclaimed.
abbrev pub is_relieved : Goal → ℤ → Bool
is_relieved g reclaimed =
    (not g.need_storage
      || (ltb_ℤ (pos 0) g.low && not (ltb_ℤ g.low (sub_int64 g.disk.managed reclaimed))))
    && (not g.need_free
        || (ltb_ℤ (pos 0) g.target && not (ltb_ℤ (add_int64 g.disk.free reclaimed) g.target)))

-- The loop breaks before this track, for the pressure is relieved; the hybrid mode goes on with idle
-- ones.
abbrev pub is_enough : ℕ → Policy → Goal → ℤ → Media → Bool
is_enough now p g reclaimed m =
    not g.age_only && is_relieved g reclaimed && not (is_hybrid p.mode && age_eligible now p m)

abbrev pub is_full : Policy → ℕ → Bool
is_full p n = not (ltb_ℤ (pos n) p.batch_size)

-- The loop of `takeBatch`.
unfoldable pub take_loop : ℕ → Policy → Goal → ℕ → ℤ → List Media → List Media
take_loop now p g n reclaimed [] = []
take_loop now p g n reclaimed (m ∷ ms) =
    let rest = take_loop now p g (suc n) (add_int64 reclaimed (pos m.size_bytes)) ms in
    if is_full p n then [] else (if is_enough now p g reclaimed m then [] else m ∷ rest)

-- `takeBatch`.
unfoldable pub take_batch : ℕ → Policy → Disk → List Media → List Media
take_batch now p disk cands = take_loop now p (goal_of p disk) 0 (pos 0) cands

-- What the world does in a run: whether a run is seen to be cancelled before a track, the bytes that
-- its purge reclaims, or its failure, and whether the event of it is written.
pub record Course : Type 0 where
  pub stopped : Media → Bool
  pub purge : Media → Option ℕ
  pub noted : Media → Bool

pub data Ending : Type 0 where
  finished interrupted purge_failed event_failed : Ending

-- The tracks that a run has purged (or noted, if it is dry), in order, with the bytes reclaimed.
pub record Outcome : Type 0 where
  pub pruned : List Media
  pub reclaimed : ℤ
  pub ending : Ending

abbrev pub ends : ℤ → Ending → Outcome
ends reclaimed ending = record { pruned = []; reclaimed = reclaimed; ending = ending }

abbrev pub also : Media → Outcome → Outcome
also m o = record o { pruned = m ∷ o.pruned }

-- The bytes that count: those of the files in a dry run, and those that the purge answers.
abbrev pub gain : Bool → Course → Media → Option ℕ
gain dry c m = if dry then some m.size_bytes else c.purge m

-- One track: a purge that fails ends the run; so does an event that is not written, after the purge.
abbrev pub prune_one : Bool → Course → Media → ℤ → Option ℕ → (ℤ → Outcome) → Outcome
prune_one dry c m reclaimed none rest = ends reclaimed Ending.purge_failed
prune_one dry c m reclaimed (some n) rest =
    if c.noted m
    then also m (rest (add_int64 reclaimed (pos n)))
    else (if dry
        then ends reclaimed Ending.event_failed
        else also m (ends reclaimed Ending.event_failed))

-- The loop of `prune`.
unfoldable pub prune_loop : ℕ → Policy → Goal → Bool → Course → ℕ → ℤ → List Media → Outcome
prune_loop now p g dry c n reclaimed [] = ends reclaimed Ending.finished
prune_loop now p g dry c n reclaimed (m ∷ ms) =
    let rest = λ (r : ℤ). prune_loop now p g dry c (suc n) r ms in
    if c.stopped m
    then ends reclaimed Ending.interrupted
    else (if is_full p n
        then ends reclaimed Ending.finished
        else (if is_enough now p g reclaimed m
            then ends reclaimed Ending.finished
            else prune_one dry c m reclaimed (gain dry c m) rest))

-- `prune`: `later` is the disk when the loop begins.
unfoldable pub prune : ℕ → Policy → Busy → Disk → Disk → Bool → Course → List Media → Outcome
prune now p busy disk later dry c tracks =
    prune_loop now p (goal_of p later) dry c 0 (pos 0)
      (candidates now p busy disk (fetch_limit p) tracks)

-- The payload of the job, and `due`: whether the last run is an interval ago.
pub record Payload : Type 0 where
  pub force : Bool
  pub preview : Bool
  pub scheduled : Bool

-- `Run` prunes, rather than end at once.
unfoldable pub runs : Policy → Payload → Bool → Bool
runs p payload due =
    if payload.scheduled
      && not payload.force
      && not payload.preview
      && (not p.enabled || is_disabled p.mode || not due)
    then false
    else (if is_disabled p.mode && not payload.preview && not payload.force
        then false
        else not (payload.force && is_disabled p.mode))

abbrev pub is_dry : Policy → Payload → Bool
is_dry p payload = p.dry_run || payload.preview

-- `Run`.
unfoldable pub run :
    ℕ → Policy → Payload → Bool → Busy → Disk → Disk → Course → List Media → Option Outcome
run now p payload due busy disk later c tracks =
    if runs p payload due
    then some (prune now p busy disk later (is_dry p payload) c tracks)
    else none

-- `planned` of `Preview`, before the cut: the candidates that `takeBatch` keeps.
unfoldable pub planned : ℕ → Policy → Busy → Disk → Disk → List Media → List Media
planned now p busy disk later tracks =
    take_batch now p later (candidates now p busy disk (fetch_limit p) tracks)

abbrev pub total_size : List Media → ℤ
total_size [] = pos 0
total_size (m ∷ ms) = add_int64 (pos m.size_bytes) (total_size ms)

-- What `Preview` answers: the tracks that it shows, their number, and the bytes of all that are planned.
pub record Shown : Type 0 where
  pub preview : List Media
  pub eligible_count : ℕ
  pub eligible_bytes : ℤ

abbrev pub shown_limit : ℤ → ℕ
shown_limit limit = if ltb_ℤ (pos 0) limit then floor_zero limit else 100

-- `Preview`.
unfoldable pub preview : ℤ → ℕ → Policy → Busy → Disk → Disk → List Media → Shown
preview limit now p busy disk later tracks =
    let all = planned now p busy disk later tracks in
    record {
      preview = take (shown_limit limit) all;
      eligible_count = length (take (shown_limit limit) all);
      eligible_bytes = total_size all;
    }
