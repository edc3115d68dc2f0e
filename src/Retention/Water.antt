-- ===== src/Retention/Water.antt =====
-- The numbers of a policy as the server works with it (internal/retention/policy.go).
use sound_dock.Base.{
  ℕ, ◌^◌, ◌≡◌, refl, ℤ, pos, ltb_ℤ, ltb, ◌≤ℤ◌, at_least, at_most, Bool, true, false, not, ◌&&◌,
  if_cases, arith,
}
use sound_dock.Retention.Policy.{
  Policy, Draft, Mode, mode_of, normalize, bounded, positive_or, nine_tenths, low_water, high_water,
  free_target, is_disabled,
}

-- What the normalization promises: an interval and a batch in their ranges, nothing negative, and a
-- gap between the mark that starts a run and the one that ends it.
pub record IsSteady (p : Policy) : Type 0 where
  pub some_minutes : ltb_ℤ (pos 0) p.interval_minutes ≡ true
  pub within_a_week : p.interval_minutes ≤ℤ pos 10080
  pub some_batch : ltb_ℤ (pos 0) p.batch_size ≡ true
  pub small_batch : p.batch_size ≤ℤ pos 500
  pub age : pos 0 ≤ℤ p.age_days
  pub recent : pos 0 ≤ℤ p.recent_play_days
  pub protected : pos 0 ≤ℤ p.min_play_count_protect
  pub limit : pos 0 ≤ℤ p.max_managed_bytes
  pub floor : pos 0 ≤ℤ p.prune_down_to_bytes
  pub least_free : pos 0 ≤ℤ p.min_free_bytes
  pub free_goal : pos 0 ≤ℤ p.free_space_target_bytes
  pub ordered_marks :
      ltb_ℤ (pos 0) p.prune_down_to_bytes ≡ true
      → ltb_ℤ (pos 0) p.max_managed_bytes ≡ true
      → ltb_ℤ p.prune_down_to_bytes p.max_managed_bytes ≡ true
  pub marks :
      ltb_ℤ (pos 0) (high_water p) ≡ true
      → (pos 0 ≤ℤ low_water p) × (ltb_ℤ (low_water p) (high_water p) ≡ true)
  pub target : ltb_ℤ (pos 0) p.min_free_bytes ≡ true → ltb_ℤ p.min_free_bytes (free_target p) ≡ true
  pub off : is_disabled p.mode ≡ true → p.enabled ≡ false

low_water_lem :
    (p : Policy)
    → ltb_ℤ (pos 0) p.max_managed_bytes ≡ true
    → ltb_ℤ p.max_managed_bytes (pos (2 ^ 59)) ≡ true
    → (pos 0 ≤ℤ low_water p) × (ltb_ℤ (low_water p) p.max_managed_bytes ≡ true)
unfolding low_water nine_tenths
low_water_lem p there small = (ground arith, ground arith)

free_target_lem :
    (p : Policy)
    → ltb_ℤ (pos 0) p.min_free_bytes ≡ true
    → ltb_ℤ p.min_free_bytes (pos (2 ^ 59)) ≡ true
    → ltb_ℤ p.min_free_bytes (free_target p) ≡ true
unfolding free_target
free_target_lem p there small = ground arith

from_positive :
    (d hi : ℕ) (x : ℤ)
    → ltb 0 d ≡ true
    → ltb 0 hi ≡ true
    → ltb_ℤ (pos 0) (at_most (pos hi) (positive_or (pos d) x)) ≡ true
from_positive d hi x h g = ground arith

at_most_le : (hi x : ℤ) → at_most hi x ≤ℤ hi
at_most_le hi x = ground arith

at_least_nonneg : (x : ℤ) → pos 0 ≤ℤ at_least (pos 0) x
at_least_nonneg x = ground arith

at_least_small :
    (x : ℤ) → ltb_ℤ x (pos (2 ^ 59)) ≡ true → ltb_ℤ (at_least (pos 0) x) (pos (2 ^ 59)) ≡ true
at_least_small x h = ground arith

disabled_off :
    (enabled : Bool) (mode : Mode)
    → is_disabled mode ≡ true
    → (enabled && not (is_disabled mode)) ≡ false
disabled_off enabled mode h = ground arith

bounded-IsSteady :
    (mode : Mode) (p : Policy) (x : ℤ)
    → pos 0 ≤ℤ x
    → (ltb_ℤ (pos 0) x ≡ true
        → ltb_ℤ (pos 0) (at_least (pos 0) p.max_managed_bytes) ≡ true
        → ltb_ℤ x (at_least (pos 0) p.max_managed_bytes) ≡ true)
    → ltb_ℤ p.max_managed_bytes (pos (2 ^ 59)) ≡ true
    → ltb_ℤ p.min_free_bytes (pos (2 ^ 59)) ≡ true
    → IsSteady (record (bounded mode p) { prune_down_to_bytes = x })
bounded-IsSteady mode p x some_floor below small free = record {
  some_minutes = from_positive 60 10080 p.interval_minutes refl refl;
  within_a_week = at_most_le (pos 10080) (positive_or (pos 60) p.interval_minutes);
  some_batch = from_positive 50 500 p.batch_size refl refl;
  small_batch = at_most_le (pos 500) (positive_or (pos 50) p.batch_size);
  age = at_least_nonneg p.age_days;
  recent = at_least_nonneg p.recent_play_days;
  protected = at_least_nonneg p.min_play_count_protect;
  limit = at_least_nonneg p.max_managed_bytes;
  floor = some_floor;
  least_free = at_least_nonneg p.min_free_bytes;
  free_goal = at_least_nonneg p.free_space_target_bytes;
  ordered_marks = below;
  marks = λ there.
      low_water_lem (record (bounded mode p) { prune_down_to_bytes = x }) there
        (at_least_small p.max_managed_bytes small);
  target = λ there.
      free_target_lem (record (bounded mode p) { prune_down_to_bytes = x }) there
        (at_least_small p.min_free_bytes free);
  off = disabled_off p.enabled mode;
}

kept_below : (a b c : Bool) → (a && (b && not c)) ≡ false → a ≡ true → b ≡ true → c ≡ true
kept_below a b c h ha hb = ground arith

tenths-less :
    (x : ℤ)
    → ltb_ℤ (pos 0) x ≡ true
    → ltb_ℤ x (pos (2 ^ 59)) ≡ true
    → ltb_ℤ (nine_tenths x) x ≡ true
unfolding nine_tenths
tenths-less x h g = ground arith

tenths-nonneg : (x : ℤ) → pos 0 ≤ℤ x → ltb_ℤ x (pos (2 ^ 59)) ≡ true → pos 0 ≤ℤ nine_tenths x
unfolding nine_tenths
tenths-nonneg x h g = ground arith

-- For every policy that is sent or stored, with marks below 2^59 bytes, the server works with an
-- interval of at most a week, a batch of 1 to 500 and no negative number, and a mark to prune down to
-- below the storage limit, if both are set; a storage limit comes with a lower mark below it to prune down to, a free-space limit with a higher target, and the mode
-- `disabled` turns the policy off.
pub normalize-IsSteady :
    (d : Draft)
    → ltb_ℤ d.rest.max_managed_bytes (pos (2 ^ 59)) ≡ true
    → ltb_ℤ d.rest.min_free_bytes (pos (2 ^ 59)) ≡ true
    → IsSteady (normalize d)
unfolding normalize
normalize-IsSteady d small free =
    let mode = mode_of d.mode_text d.rest.enabled in
    let q = bounded mode d.rest in
    if_cases IsSteady
      (ltb_ℤ (pos 0) q.prune_down_to_bytes
        && (ltb_ℤ (pos 0) q.max_managed_bytes
            && not (ltb_ℤ q.prune_down_to_bytes q.max_managed_bytes)))
      (λ over.
        bounded-IsSteady mode d.rest (nine_tenths q.max_managed_bytes)
          (tenths-nonneg q.max_managed_bytes (at_least_nonneg d.rest.max_managed_bytes)
            (at_least_small d.rest.max_managed_bytes small))
          (λ some_mark there.
            tenths-less q.max_managed_bytes there (at_least_small d.rest.max_managed_bytes small))
          small free)
      (λ below.
        bounded-IsSteady mode d.rest q.prune_down_to_bytes
          (at_least_nonneg d.rest.prune_down_to_bytes)
          (λ mark there.
            kept_below (ltb_ℤ (pos 0) q.prune_down_to_bytes) (ltb_ℤ (pos 0) q.max_managed_bytes)
              (ltb_ℤ q.prune_down_to_bytes q.max_managed_bytes) below mark there)
          small free)
