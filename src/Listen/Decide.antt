-- ===== src/Listen/Decide.antt =====
-- internal/listen/decide.go and writer.go: plays and skips of one user and source.
use sound_dock.Base.{
  ℕ, ◌+◌, ℤ, pos, ltb_ℤ, quot, Bool, true, false, not, ◌&&◌, ◌||◌, Option, none, some, List, [],
  ◌∷◌, String, str_eq, ◌==◌, if◌then◌else◌,
}

-- The state of a key; uuid.Nil is 0.
pub record PlayState : Type 0 where
  pub track : ℕ
  pub counted : Bool
  pub last_pos : ℤ

pub record Event : Type 0 where
  pub track : ℕ
  pub position : ℤ
  pub duration : ℤ
  pub source : String
  pub kind : String
  pub stop_after : Bool

pub data Action : Type 0 where
  nothing play skip : Action

abbrev pub no_state : PlayState
no_state = record { track = 0; counted = false; last_pos = pos 0 }

-- `ThresholdMs`.
unfoldable pub threshold_ms : ℤ → ℤ
threshold_ms d =
    if ltb_ℤ (pos 0) d
    then (if ltb_ℤ (quot d 2) (pos 30000) then quot d 2 else pos 30000)
    else pos 30000

-- `Reached`.
unfoldable pub reached : ℤ → ℤ → Bool
reached position d = not (ltb_ℤ position (threshold_ms d))

-- `NormalizeSource`.
abbrev pub normalize_source : String → Option String
normalize_source s =
    if str_eq s "" || str_eq s "web"
    then some "web"
    else (if str_eq s "discord" || str_eq s "import" then some s else none)

abbrev pub named : ℕ → PlayState → PlayState
named track st = if st.track == 0 then record st { track = track } else st

-- `tenths` stands for `int(float64(d) * 0.9)`.
module _ (tenths : ℤ → ℤ) where
  -- `nearEnd`.
  unfoldable pub near_end : ℤ → ℤ
  near_end d =
      if ltb_ℤ (pos 0) d
      then (if ltb_ℤ (tenths d) (threshold_ms d) then threshold_ms d else tenths d)
      else pos 30000

  abbrev pub of_track : PlayState → Event → PlayState
  of_track st ev =
      if not (ev.track == 0) && not (ev.track == st.track)
      then record no_state { track = ev.track }
      else st

  -- The track starts again after its end.
  abbrev pub restarted : PlayState → Event → PlayState
  restarted st ev =
      if st.counted
        && ltb_ℤ ev.position (threshold_ms ev.duration)
        && not (ltb_ℤ st.last_pos (near_end ev.duration))
      then record { track = ev.track; counted = false; last_pos = ev.position }
      else st

  abbrev pub progress : PlayState → Event → PlayState × Action
  progress st ev =
      if not st.counted && reached ev.position ev.duration
      then (named ev.track (record st { counted = true; last_pos = ev.position }), Action.play)
      else (named ev.track (record st { last_pos = ev.position }), Action.nothing)

  -- `decide`.
  unfoldable pub decide : PlayState → Event → PlayState × Action
  decide before ev =
      let st = of_track before ev in
      if str_eq ev.kind "skip"
      then (no_state, (if ev.stop_after || st.counted then Action.nothing else Action.skip))
      else progress (restarted st ev) ev

  -- `Record`, of one user and source, without the statements that it then runs.
  abbrev pub record_event : PlayState → Event → Option (PlayState × Action)
  record_event st ev = elim (normalize_source ev.source) [
    | none ↦ none
    | some s ↦ some (decide st ev)
  ]

  abbrev pub is_play : Action → ℕ
  is_play Action.play = 1
  is_play _ = 0

  -- The plays that a row of events counts.
  unfoldable pub plays_in : PlayState → List Event → ℕ
  plays_in st [] = 0
  plays_in st (ev ∷ evs) = is_play (decide st ev).1 + plays_in (decide st ev).0 evs
