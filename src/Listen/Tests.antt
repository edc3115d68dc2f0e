-- ===== src/Listen/Tests.antt =====
-- A track of four minutes that is played through, and a client that leaps ahead.
use sound_dock.Base.{
  ℕ, true, ◌+◌, ◌*◌, ◌-◌, ◌/◌, ◌≤◌, ◌≡◌, refl, ℤ, pos, floor_zero, false, none, List, [], ◌∷◌,
  arith, any, ◌&&◌,
}
use sound_dock.Listen.Decide.{
  PlayState, Event, plays_in, no_state, decide, threshold_ms, reached, near_end,
}
use sound_dock.Listen.Pass.{is_reached, one_if, begins, one_play}
use sound_dock.Listen.Credit.{credit}
use sound_dock.Listen.Fair.{Message, listen_all, unheard, listen_all-Earned}
use sound_dock.Listen.Shadow.{Checkpoint, apply_all}
use sound_dock.Listen.Qualify.{count_of, nothing_yet, IsHonest, apply_all-IsHonest}

abbrev tenths : ℤ → ℤ
tenths d = pos (floor_zero d * 9 / 10)

abbrev heard_at : ℕ → Event
heard_at position = record {
  track = 7;
  position = pos position;
  duration = pos 240000;
  source = "web";
  kind = "progress";
  stop_after = false;
}

abbrev played_through : List Event
played_through =
    heard_at 1000 ∷ heard_at 20000 ∷ heard_at 40000 ∷ heard_at 200000 ∷ heard_at 239000 ∷ []

-- The track was played to its end before, and starts again.
abbrev at_end : PlayState
at_end = record { track = 7; counted = true; last_pos = pos 238000 }

one_play_example :
    plays_in tenths at_end played_through
    ≡ one_if (begins tenths 7 at_end (heard_at 1000) && any is_reached played_through)
one_play_example =
    one_play tenths 7 (pos 240000) (pos 0) at_end (heard_at 1000)
      (heard_at 20000 ∷ heard_at 40000 ∷ heard_at 200000 ∷ heard_at 239000 ∷ []) (ground arith)
      (
        refl,
        refl,
        refl,
        ground arith,
        (
          refl,
          refl,
          refl,
          ground arith,
          (
            refl,
            refl,
            refl,
            ground arith,
            (refl, refl, refl, ground arith, (refl, refl, refl, ground arith, tt)),
          ),
        ),
      )

played_again : plays_in tenths at_end played_through ≡ 1
unfolding plays_in decide threshold_ms reached near_end
played_again = refl

played_once : plays_in tenths no_state played_through ≡ 1
unfolding plays_in decide threshold_ms reached near_end
played_once = refl

-- The product at the rate 1; the rate of no test is another.
abbrev five_quarters : ℤ → ℕ → ℤ
five_quarters rate wall = pos (wall * 5 / 4)

abbrev sends : ℕ → ℕ → ℕ → Message
sends second sequence position = record {
  position = pos position;
  sequence = pos sequence;
  status = "playing";
  rate = pos 0;
  at = second * 1000000000;
}

-- The third message leaps by a minute in two seconds, and the last is sent twice.
abbrev leaping : List Message
leaping =
    sends 10 1 2000 ∷ sends 14 2 6000 ∷ sends 16 3 66000 ∷ sends 20 4 70000 ∷ sends 20 4 70000 ∷ []

listen_all-Earned_example :
    (listen_all five_quarters unheard leaping).accumulated * 4000000
    ≤ 20000000000 + 5 * (20000000000 - 10000000000)
listen_all-Earned_example =
    listen_all-Earned five_quarters (λ w h. refl) 10000000000 20000000000 leaping (omega arith)
      (
        omega arith,
        omega arith,
        refl,
        (
          omega arith,
          omega arith,
          refl,
          (
            omega arith,
            omega arith,
            refl,
            (omega arith, omega arith, refl, (omega arith, omega arith, refl, tt)),
          ),
        ),
      )

ten_seconds : (listen_all five_quarters unheard leaping).accumulated ≡ 10000
unfolding listen_all credit
ten_seconds = refl

abbrev checks : ℕ → ℕ → ℕ × Checkpoint
checks second position = (
  second * 1000000000,
  record {
    track = 7;
    position = pos position;
    duration = pos 8000;
    source = "";
    kind = "progress";
    stop_after = false;
    instance_id = 3;
    sequence = pos 0;
    client = "tab";
    device = "";
    status = "playing";
    rate = pos 0;
    renderer_kind = "browser";
    renderer = "tab";
    audio_listener = none;
  },
)

apply_all-IsHonest_example :
    IsHonest
      (λ k. count_of k (checks 1 1000 ∷ checks 5 5000 ∷ checks 9 9000 ∷ []))
      (apply_all five_quarters (checks 1 1000 ∷ checks 5 5000 ∷ checks 9 9000 ∷ []) nothing_yet)
apply_all-IsHonest_example =
    apply_all-IsHonest five_quarters (checks 1 1000 ∷ checks 5 5000 ∷ checks 9 9000 ∷ [])
