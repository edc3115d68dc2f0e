-- ===== src/Retention/Policy.antt =====
-- internal/retention/policy.go: the policy of the administrator and what it is made of. Bytes are
-- int64, whose products and sums wrap around.
use sound_dock.Base.{
  ◌+◌, ◌*◌, ℤ, pos, ltb_ℤ, at_least, at_most, wrap_int64, quot, floor_zero, Bool, true, false, not,
  ◌&&◌, ◌||◌, String, if◌then◌else◌, trim_space, lowers_to,
}

pub data Mode : Type 0 where
  disabled age storage free_space hybrid : Mode

pub record Policy : Type 0 where
  pub enabled : Bool
  pub mode : Mode
  pub interval_minutes : ℤ
  pub max_managed_bytes : ℤ
  pub prune_down_to_bytes : ℤ
  pub min_free_bytes : ℤ
  pub free_space_target_bytes : ℤ
  pub age_days : ℤ
  pub min_play_count_protect : ℤ
  pub recent_play_days : ℤ
  pub batch_size : ℤ
  pub dry_run : Bool

-- A policy as it is stored or sent: its mode is any text.
pub record Draft : Type 0 where
  pub mode_text : String
  pub rest : Policy

abbrev pub default_policy : Policy
default_policy = record {
  enabled = false;
  mode = Mode.disabled;
  interval_minutes = pos 60;
  max_managed_bytes = pos 0;
  prune_down_to_bytes = pos 0;
  min_free_bytes = pos 0;
  free_space_target_bytes = pos 0;
  age_days = pos 14;
  min_play_count_protect = pos 0;
  recent_play_days = pos 7;
  batch_size = pos 50;
  dry_run = false;
}

-- The mode of a text, and otherwise the one for an enabled or a disabled policy.
abbrev pub mode_of : String → Bool → Mode
mode_of s enabled =
    let t = trim_space s in
    if lowers_to t "age"
    then Mode.age
    else (if lowers_to t "storage"
        then Mode.storage
        else (if lowers_to t "free_space"
            then Mode.free_space
            else (if lowers_to t "hybrid"
                then Mode.hybrid
                else (if lowers_to t "disabled"
                    then Mode.disabled
                    else (if enabled then Mode.age else Mode.disabled)))))

abbrev pub is_disabled : Mode → Bool
is_disabled Mode.disabled = true
is_disabled _ = false

-- `if x <= 0 { x = d }`.
abbrev pub positive_or : ℤ → ℤ → ℤ
positive_or d x = if ltb_ℤ (pos 0) x then x else d

-- `x * 9 / 10`, of an x that is not negative.
unfoldable pub nine_tenths : ℤ → ℤ
nine_tenths x = quot (wrap_int64 (floor_zero x * 9)) 10

-- `Normalize`, before its last statement.
abbrev pub bounded : Mode → Policy → Policy
bounded mode p = record {
  enabled = p.enabled && not (is_disabled mode);
  mode = mode;
  interval_minutes = at_most (pos 10080) (positive_or (pos 60) p.interval_minutes);
  max_managed_bytes = at_least (pos 0) p.max_managed_bytes;
  prune_down_to_bytes = at_least (pos 0) p.prune_down_to_bytes;
  min_free_bytes = at_least (pos 0) p.min_free_bytes;
  free_space_target_bytes = at_least (pos 0) p.free_space_target_bytes;
  age_days = at_least (pos 0) p.age_days;
  min_play_count_protect = at_least (pos 0) p.min_play_count_protect;
  recent_play_days = at_least (pos 0) p.recent_play_days;
  batch_size = at_most (pos 500) (positive_or (pos 50) p.batch_size);
  dry_run = p.dry_run;
}

abbrev pub ordered : Policy → Policy
ordered p =
    if ltb_ℤ (pos 0) p.prune_down_to_bytes
      && (ltb_ℤ (pos 0) p.max_managed_bytes
          && not (ltb_ℤ p.prune_down_to_bytes p.max_managed_bytes))
    then record p { prune_down_to_bytes = nine_tenths p.max_managed_bytes }
    else p

unfoldable pub normalize : Draft → Policy
normalize d = ordered (bounded (mode_of d.mode_text d.rest.enabled) d.rest)

-- `HighWater`, `LowWater` and `FreeTarget`.
abbrev pub high_water : Policy → ℤ
high_water p = p.max_managed_bytes

unfoldable pub low_water : Policy → ℤ
low_water p =
    if ltb_ℤ (pos 0) p.max_managed_bytes
    then (if ltb_ℤ (pos 0) p.prune_down_to_bytes && ltb_ℤ p.prune_down_to_bytes p.max_managed_bytes
        then p.prune_down_to_bytes
        else nine_tenths p.max_managed_bytes)
    else pos 0

unfoldable pub free_target : Policy → ℤ
free_target p =
    if ltb_ℤ (pos 0) p.min_free_bytes
    then (if ltb_ℤ p.min_free_bytes p.free_space_target_bytes
        then p.free_space_target_bytes
        else wrap_int64 (floor_zero p.min_free_bytes + 5368709120))
    else pos 0

-- `Interval`, in minutes.
abbrev pub interval : Policy → ℤ
interval p = positive_or (pos 60) p.interval_minutes

abbrev pub is_age : Mode → Bool
is_age Mode.age = true
is_age _ = false

abbrev pub is_hybrid : Mode → Bool
is_hybrid Mode.hybrid = true
is_hybrid _ = false

abbrev pub is_storage : Mode → Bool
is_storage Mode.storage = true
is_storage _ = false

abbrev pub is_free_space : Mode → Bool
is_free_space Mode.free_space = true
is_free_space _ = false

abbrev pub uses_age : Policy → Bool
uses_age p = p.enabled && (is_age p.mode || is_hybrid p.mode)

abbrev pub uses_storage : Policy → Bool
uses_storage p =
    p.enabled && ltb_ℤ (pos 0) p.max_managed_bytes && (is_storage p.mode || is_hybrid p.mode)

abbrev pub uses_free_space : Policy → Bool
uses_free_space p =
    p.enabled && ltb_ℤ (pos 0) p.min_free_bytes && (is_free_space p.mode || is_hybrid p.mode)
