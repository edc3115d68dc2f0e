-- ===== src/Playback/Control.antt =====
-- `controlTx` (internal/playback/control.go): one control action on a locked session. The action is
-- the switch's string; `other` is any string that no case names.
pub mod Kept
pub mod WellFormed
pub mod Frame
pub mod Generation
use sound_dock.Base.{
  ℕ, ◌+◌, ◌*◌, ℤ, pos, negsuc, floor_zero, is_negative, Bool, true, false, not, ◌&&◌, ◌||◌, Option,
  none, some, String, str_eq, List, [], ◌∷◌, map, ltb, leb, ◌==◌, if◌then◌else◌, length, get_elem?,
  ok, err, ◌>>=◌,
}
use sound_dock.Playback.Session.{
  UndoItem, Item, Session, Dock, Playhead, Modes, Try, Status, RepeatMode, ShuffleMode, OutputPref,
  RendererKind, invalid_repeat_mode, autoplay_required, invalid_output_pref, index_required,
  index_out_of_range, reorder_required, unknown_action,
}
use sound_dock.Playback.Queue.{tracks, add_tracks, rows_at, rows_after}
use sound_dock.Playback.Extra.{
  Value, float, Fields, get, extra_int, extra_string, extra_bool, extra_uuids, is_set, float_one,
}
use sound_dock.Playback.Env.{Env}
use sound_dock.Playback.Lease.{release_browser_if_held}
use sound_dock.Playback.Cursor.{
  replace_queue, clear_keep_current, move, remove_at, reorder, empty_session, stamp, set_status,
  play_row,
}
use sound_dock.Playback.Undo.{load_row, restore_undo, undo_generation, parse_undo_items}

pub data Action : Type 0 where
  pause resume play stop clear shuffle repeat volume mute unmute autoplay output_pref seek : Action
  add stop_after_current skip next previous index remove undo reorder_items replace other : Action

-- The new state, `mutated`, and the rows under `undoItemsKey`.
pub record Outcome : Type 0 where
  pub dock : Dock
  pub mutated : Bool
  pub undo_items : List UndoItem

abbrev pub done : Dock → Outcome
done d = record { dock = d; mutated = true; undo_items = [] }

abbrev pub on_session : (Session → Session) → Dock → Dock
on_session f d = record d { session = f d.session }

abbrev pub on_modes : (Modes → Modes) → Dock → Dock
on_modes f d = on_session (λ s. record s { modes = f s.modes }) d

abbrev pub on_playhead : (Playhead → Playhead) → Dock → Dock
on_playhead f d = on_session (λ s. record s { playhead = f s.playhead }) d

-- `if stop_after_current is there`: the write, and whether it was made.
unfoldable pub write_stop_after : Fields → Dock → Dock × Bool
write_stop_after extra d = elim (extra_bool "stop_after_current" extra) [
  | none ↦ (d, false)
  | some v ↦ (on_modes (λ m. record m { stop_after_current = v }) d, true)
]

abbrev pub shuffle_mode_of : String → Option ShuffleMode
shuffle_mode_of s =
    if str_eq s "smart"
    then some ShuffleMode.smart
    else (if str_eq s "random"
        then some ShuffleMode.random
        else (if str_eq s "album" then some ShuffleMode.album else none))

unfoldable pub write_shuffle_mode : Fields → Dock → Dock × Bool
write_shuffle_mode extra d = elim (shuffle_mode_of (extra_string "shuffle_mode" extra)) [
  | none ↦ (d, false)
  | some mode ↦ (on_modes (λ m. record m { shuffle_mode = mode }) d, true)
]

abbrev pub keeps_position : Action → Bool
keeps_position seek = true
keeps_position stop = true
keeps_position pause = true
keeps_position _ = false

-- A reported position, unless the action writes its own. It does not count as a change.
unfoldable pub write_position : Action → Fields → Dock → Dock
write_position action extra d = elim (extra_int "position_ms" extra) [
  | none ↦ d
  | some ms ↦
      if keeps_position action then d else on_playhead (λ p. record p { position_ms = ms }) d
]

pub pause_session : Env → Option ℤ → Dock → Dock
pause_session env none d = on_playhead (λ p. record (stamp env.now p) { status = Status.paused }) d
pause_session env (some ms) d =
    on_playhead
      (λ p. record (stamp env.now p) { status = Status.paused; position_ms = pos (floor_zero ms) })
      d

abbrev pub is_playing : Status → Bool
is_playing Status.playing = true
is_playing _ = false

-- The clock restarts only if the session was not playing.
pub resume_session : Env → Dock → Dock
resume_session env d =
    on_playhead
      (λ p. record p {
        checkpoint_at = if is_playing p.status then p.checkpoint_at else some env.now;
        status = Status.playing;
      })
      d

pub stop_session : Dock → Dock
stop_session d =
    on_modes (λ m. record m { stop_after_current = false })
      (on_playhead (λ p. record p { status = Status.stopped; position_ms = pos 0 }) d)

pub clear_all : Dock → Outcome
clear_all d = record {
  dock = record d { items = []; session = empty_session d.session };
  mutated = true;
  undo_items = map load_row d.items;
}

pub clear_upcoming : Dock → Outcome
clear_upcoming d = record {
  dock = clear_keep_current d;
  mutated = true;
  undo_items = map load_row (rows_after d.session.current_index d.items);
}

abbrev pub repeat_of : String → Option RepeatMode
repeat_of s =
    if str_eq s "off"
    then some RepeatMode.off
    else (if str_eq s "queue"
        then some RepeatMode.queue
        else (if str_eq s "one" then some RepeatMode.one else none))

pub set_repeat : String → Dock → Try Outcome
set_repeat mode d = elim (repeat_of (if str_eq mode "" then "queue" else mode)) [
  | none ↦ err invalid_repeat_mode
  | some r ↦ ok (done (on_modes (λ m. record m { repeat_mode = r }) d))
]

-- The volume asked for, in units of a float64: a float as it is, an integer as a whole number, and 0
-- if there is neither.
abbrev pub asked_volume : Fields → ℤ
asked_volume extra = elim (get "volume" extra) [
  | float f ↦ f
  | _ ↦ elim (extra_int "volume" extra) [
    | none ↦ pos 0
    | some (pos n) ↦ pos (n * float_one)
    | some (negsuc n) ↦ negsuc n
  ]
]

-- Into [0, 1].
abbrev pub clamp_volume : ℤ → ℕ
clamp_volume v = if ltb float_one (floor_zero v) then float_one else floor_zero v

pub mute_session : Dock → Dock
mute_session d =
    on_modes
      (λ m. record m {
        muted = true;
        volume_restore = if m.muted then m.volume_restore else some m.volume;
      })
      d

abbrev pub or_bool : Option Bool → Option Bool → Option Bool
or_bool (some b) c = some b
or_bool none c = c

pub set_autoplay : Option Bool → Dock → Try Outcome
set_autoplay none d = err autoplay_required
set_autoplay (some v) d = ok (done (on_modes (λ m. record m { autoplay = v }) d))

abbrev pub output_of : String → Option OutputPref
output_of s =
    if str_eq s "browser"
    then some OutputPref.browser
    else (if str_eq s "discord" then some OutputPref.discord else none)

-- `output_pref`: Discord as the output takes the lease from a browser.
pub set_output : String → Dock → Try Outcome
set_output pref d = elim (output_of pref) [
  | none ↦ err invalid_output_pref
  | some OutputPref.browser ↦ ok (
      done
        (on_session (λ s. record s { lease = record (s.lease) { output = OutputPref.browser } }) d))
  | some OutputPref.discord ↦ ok (
      done (
        on_session
          (λ s. record s {
            lease = record ((release_browser_if_held s.lease).0) { output = OutputPref.discord };
          })
          d))
]

unfoldable pub seek_to : Env → ℤ → Dock → Dock
seek_to env ms d =
    on_playhead (λ p. record (stamp env.now p) { position_ms = pos (floor_zero ms) }) d

abbrev pub or_zero : Option ℤ → ℤ
or_zero none = pos 0
or_zero (some n) = n

pub add_items : Env → List ℕ → Bool → Dock → Try Outcome
add_items env ts ahead d = do
  rows ← add_tracks env.catalog env.who d.next_uuid d.session.current_index ts ahead d.items
  ok (done (record d { items = rows; next_uuid = d.next_uuid + length ts }))

unfoldable pub play_index : Env → Option ℤ → Dock → Try Outcome
play_index env none d = err index_required
play_index env (some (negsuc n)) d = err index_out_of_range
play_index env (some (pos i)) d = elim (get_elem? (tracks d.items) i) [
  | none ↦ err index_out_of_range
  | some t ↦ ok (done (play_row env i t d))
]

abbrev pub rows_at_ℤ : ℤ → List Item → List Item
rows_at_ℤ (pos p) rows = rows_at p rows
rows_at_ℤ (negsuc n) rows = []

abbrev pub changed : Bool → Dock × Bool → Outcome
changed mutated (d, c) = record { dock = d; mutated = c || mutated; undo_items = [] }

pub remove_item : Env → Bool → ℤ → Dock → Outcome
remove_item env mutated p d =
    let (d', c) = remove_at env p d in
    record { dock = d'; mutated = c || mutated; undo_items = map load_row (rows_at_ℤ p d.items) }

pub reorder_item : Bool → Option ℤ → Option ℤ → Dock → Try Outcome
reorder_item mutated none to d = err reorder_required
reorder_item mutated (some from) none d = err reorder_required
reorder_item mutated (some from) (some to) d = reorder from to d >>= λ r. ok (changed mutated r)

abbrev pub same : Bool → Dock → Outcome
same mutated d = record { dock = d; mutated = mutated; undo_items = [] }

-- The switch.
unfoldable pub dispatch : Env → Action → Fields → Bool → Dock → Try Outcome
dispatch env pause extra mutated d = ok (done (pause_session env (extra_int "position_ms" extra) d))
dispatch env resume extra mutated d = ok (done (resume_session env d))
dispatch env play extra mutated d = ok (done (resume_session env d))
dispatch env stop extra mutated d = ok (done (stop_session d))
dispatch env clear extra mutated d =
    ok (if is_set (extra_bool "all" extra) then clear_all d else clear_upcoming d)
dispatch env shuffle extra mutated d =
    ok (done (on_modes (λ m. record m { shuffle = not m.shuffle }) d))
dispatch env repeat extra mutated d = set_repeat (extra_string "mode" extra) d
dispatch env volume extra mutated d =
    ok (done (on_modes (λ m. record m { volume = clamp_volume (asked_volume extra) }) d))
dispatch env mute extra mutated d = ok (done (mute_session d))
dispatch env unmute extra mutated d = ok (done (on_modes (λ m. record m { muted = false }) d))
dispatch env autoplay extra mutated d =
    set_autoplay (or_bool (extra_bool "autoplay" extra) (extra_bool "enabled" extra)) d
dispatch env output_pref extra mutated d =
    set_output
      (if str_eq (extra_string "output_pref" extra) ""
        then extra_string "pref" extra
        else extra_string "output_pref" extra)
      d
dispatch env seek extra mutated d =
    ok (done (seek_to env (or_zero (extra_int "position_ms" extra)) d))
dispatch env add extra mutated d =
    let ts = extra_uuids env.parse "track_ids" extra in
    if length ts == 0
    then ok (same mutated d)
    else add_items env ts (is_set (extra_bool "next" extra)) d
dispatch env stop_after_current extra mutated d = ok (same mutated d)
dispatch env skip extra mutated d =
    ok (changed mutated (move env (pos 1) (is_set (extra_bool "ended" extra)) d))
dispatch env next extra mutated d =
    ok (changed mutated (move env (pos 1) (is_set (extra_bool "ended" extra)) d))
dispatch env previous extra mutated d = ok (changed mutated (move env (negsuc 0) false d))
dispatch env index extra mutated d = play_index env (extra_int "index" extra) d
dispatch env remove extra mutated d =
    ok (remove_item env mutated (or_zero (extra_int "position" extra)) d)
dispatch env undo extra mutated d = do
  d' ← restore_undo env (undo_generation extra) (parse_undo_items env extra) d
  ok (done d')
dispatch env reorder_items extra mutated d =
    reorder_item mutated (extra_int "from" extra) (extra_int "to" extra) d
dispatch env replace extra mutated d = do
  d' ←
      replace_queue env (extra_uuids env.parse "track_ids" extra)
        (or_zero (extra_int "start" extra)) d
  ok (done d')
dispatch env other extra mutated d = err unknown_action

-- `controlTx`: the writes that any action may carry, then the switch.
unfoldable pub control_tx : Env → Action → Fields → Dock → Try Outcome
control_tx env action extra d =
    let (d₁, stop_written) = write_stop_after extra d in
    let (d₂, mode_written) = write_shuffle_mode extra d₁ in
    dispatch env action extra (stop_written || mode_written) (write_position action extra d₂)
