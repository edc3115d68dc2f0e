-- ===== src/Listen/Shadow.antt =====
-- internal/listen/shadow.go: the checkpoints of one user in one playback instance, with its row of
-- listen_instance_state and its rows of listen_events and listen_output_segments. Statements do not
-- fail, and a time that is missing is the instant of the call.
use sound_dock.Base.{
  ℕ, ℤ, pos, ltb, ltb_ℤ, Bool, true, false, not, ◌&&◌, ◌||◌, Option, none, some, List, [], ◌∷◌,
  ◌++◌, String, str_eq, ◌==◌, if◌then◌else◌, any, is_some,
}
use sound_dock.Listen.Decide.{threshold_ms, normalize_source}
use sound_dock.Listen.Credit.{Fsm, Credited, credit, is_audio_listener, output_of}

pub record Checkpoint : Type 0 where
  pub track : ℕ
  pub position : ℤ
  pub duration : ℤ
  pub source : String
  pub kind : String
  pub stop_after : Bool
  pub instance_id : ℕ
  pub sequence : ℤ
  pub client : String
  pub device : String
  pub status : String
  pub rate : ℤ
  pub renderer_kind : String
  pub renderer : String
  pub audio_listener : Option Bool

-- A row of listen_events.
pub record Entry : Type 0 where
  pub kind : String
  pub track : ℕ
  pub accumulated : ℕ
  pub duration : ℤ
  pub qualified : Bool
  pub skipped : Bool
  pub source : String
  pub started : ℕ

-- A row of listen_output_segments.
pub record Segment : Type 0 where
  pub output : String
  pub started : ℕ
  pub ended : Option ℕ

pub record Log : Type 0 where
  pub row : Option Fsm
  pub entries : List Entry
  pub segments : List Segment

abbrev pub empty_fsm : Fsm
empty_fsm = record {
  track = 0;
  accumulated = 0;
  last_position = pos 0;
  last_sequence = pos 0;
  last_checkpoint = none;
  qualified = false;
  skipped = false;
  last_output = "";
  started_at = none;
}

-- `loadFSM`.
abbrev pub load_fsm : Option Fsm → Fsm
load_fsm none = empty_fsm
load_fsm (some st) = st

abbrev pub or_now : ℕ → Option ℕ → Option ℕ
or_now now none = some now
or_now now (some at) = some at

-- `saveFSM`: a row that is there keeps its `started_at`.
abbrev pub kept_start : Option Fsm → Option ℕ → Option ℕ
kept_start none at = at
kept_start (some old) at = old.started_at

abbrev pub save_fsm : ℕ → Fsm → Log → Log
save_fsm now st log = record log {
  row = some (record st { started_at = kept_start log.row (or_now now st.started_at) });
}

abbrev pub since : ℕ → Option ℕ → ℕ
since now none = now
since now (some at) = at

-- `insertEvent`: the unique index lets each kind in once.
unfoldable pub insert_event : ℕ → String → Checkpoint → Fsm → Log → Log
insert_event now kind cp st log =
    if any (λ (e : Entry). str_eq e.kind kind) log.entries then log else record log {
      entries =
          log.entries
          ++ (record {
            kind = kind;
            track = cp.track;
            accumulated = st.accumulated;
            duration = cp.duration;
            qualified = str_eq kind "qualify" || st.qualified;
            skipped = not (str_eq kind "qualify") && (str_eq kind "skip" || st.skipped);
            source = cp.source;
            started = since now st.started_at;
          }
              ∷ []);
    }

-- The open segment that started last.
abbrev pub newer : Segment → Option Segment → Option Segment
newer s none = some s
newer s (some t) = if ltb s.started t.started then some t else some s

unfoldable pub open_segment : List Segment → Option Segment
open_segment [] = none
open_segment (s ∷ ss) = let rest = open_segment ss in if is_some s.ended then rest else newer s rest

abbrev pub close_all : ℕ → List Segment → List Segment
close_all now [] = []
close_all now (s ∷ ss) =
    (if is_some s.ended then s else record s { ended = some now }) ∷ close_all now ss

abbrev pub opened : ℕ → String → List Segment → List Segment
opened now output ss = ss ++ (record { output = output; started = now; ended = none } ∷ [])

abbrev pub next_segments : Option Segment → ℕ → String → List Segment → List Segment
next_segments none now output ss = opened now output ss
next_segments (some s) now output ss =
    if str_eq s.output output then ss else opened now output (close_all now ss)

-- `syncOutputSegment`, of the outputs that `outputOf` gives.
unfoldable pub sync_output_segment : ℕ → String → Log → Log
sync_output_segment now output log =
    if str_eq output ""
    then log
    else record log { segments = next_segments (open_segment log.segments) now output log.segments }

-- The state as the checkpoint finds it.
abbrev pub of_checkpoint : ℕ → Checkpoint → Fsm → Fsm
of_checkpoint now cp st =
    if not (st.track == 0) && not (st.track == cp.track)
    then record empty_fsm { track = cp.track; started_at = some now }
    else record st { track = cp.track; started_at = or_now now st.started_at }

abbrev pub qualifies : Checkpoint → Fsm → Bool
qualifies cp st = not st.qualified && not (ltb_ℤ (pos st.accumulated) (threshold_ms cp.duration))

-- The state and the log after the test of the threshold.
unfoldable pub qualify : ℕ → Checkpoint → Fsm → Log → Fsm × Log
qualify now cp st log =
    if qualifies cp st
    then (
      record st { qualified = true },
      insert_event now "qualify" cp (record st { qualified = true }) log,
    )
    else (st, log)

unfoldable pub skip : ℕ → Checkpoint → Fsm × Log → Log
skip now cp (st, log) =
    if st.skipped
    then save_fsm now st log
    else save_fsm now (record st { skipped = true })
        (insert_event now "skip" cp (record st { skipped = true }) log)

abbrev pub saved : ℕ → Fsm × Log → Log
saved now (st, log) = save_fsm now st log

abbrev pub with_output : String → Fsm → Fsm
with_output output st = if str_eq output "" then st else record st { last_output = output }

module _ (scale : ℤ → ℕ → ℤ) where
  abbrev pub heard : ℕ → Checkpoint → Credited → Log → Log
  heard now cp got log =
      if got.is_dropped
      then log
      else (let output = output_of cp.renderer_kind in
          saved now
            (qualify now cp (with_output output got.next) (sync_output_segment now output log)))

  abbrev pub step : ℕ → Checkpoint → Fsm → Log → Log
  step now cp st log =
      if str_eq cp.kind "skip"
      then (if cp.stop_after then save_fsm now st log else skip now cp (qualify now cp st log))
      else (if is_audio_listener cp.kind cp.renderer_kind cp.renderer cp.client cp.device
            cp.audio_listener
          then heard now cp (credit scale st cp.position cp.sequence cp.status cp.rate now) log
          else log)

  abbrev pub sourced : ℕ → Checkpoint → Option String → Log → Log
  sourced now cp none log = log
  sourced now cp (some source) log =
      if str_eq source "import"
      then log
      else step now (record cp { source = source }) (of_checkpoint now cp (load_fsm log.row)) log

  -- `ApplyShadow`, of a user who is known.
  unfoldable pub apply_shadow : ℕ → Checkpoint → Log → Log
  apply_shadow now cp log =
      if cp.instance_id == 0 || cp.track == 0
      then log
      else sourced now cp (normalize_source cp.source) log

  unfoldable pub apply_all : List (ℕ × Checkpoint) → Log → Log
  apply_all [] log = log
  apply_all ((now, cp) ∷ cps) log = apply_all cps (apply_shadow now cp log)
