-- ===== src/Playback/Cursor.antt =====
-- The statements and handlers of internal/playback that move the cursor of a session: engine.go
-- (`replaceQueueTx`), control.go (`clearKeepCurrent`, `move`, `removeAt`, `reorder`), drop.go and the
-- column lists of playhead.go.
pub mod WellFormed
pub mod Follow
pub mod Frame
pub mod Drop
use sound_dock.Base.{
  ℕ, zero, suc, ◌+◌, ◌-◌, ℤ, pos, negsuc, is_negative, floor_zero, eq_ℤ, Bool, true, false, not,
  ◌&&◌, ◌||◌, Option, none, some, List, [], ◌∷◌, ◌++◌, map, ltb, leb, ◌==◌, if◌then◌else◌, length,
  get_elem?, keep, contains, holds, ok, err, ◌>>=◌,
}
use sound_dock.Playback.Session.{
  Item, Session, Dock, Playhead, Try, Status, Track, Catalog, nil_uuid, invalid_reorder,
  foreign_key, index_out_of_range,
}
use sound_dock.Playback.Queue.{
  tracks, new_item, insert_tracks, delete_at, close_gap, track_at, renumber, delete_tracks,
  move_row, moved_index,
}
use sound_dock.Playback.Next.{Next, next_index, queue_meta, intn}
use sound_dock.Playback.Env.{Env}

-- `COALESCE((SELECT t.duration_ms FROM tracks t WHERE t.id=$3), 0)`.
abbrev pub duration_of : Catalog → ℕ → ℕ
duration_of cat t = elim (cat t) [ none ↦ 0 | some tr ↦ tr.duration_ms ]

-- sqlNewInstance.
abbrev pub new_instance : ℕ → ℕ → Playhead → Playhead
new_instance now id p = record p {
  position_ms = pos 0;
  checkpoint_at = some now;
  sequence = 1;
  instance_id = some id;
}

-- sqlStampPlayhead.
abbrev pub stamp : ℕ → Playhead → Playhead
stamp now p = record p { checkpoint_at = some now; sequence = p.sequence + 1 }

-- sqlEmptySession.
abbrev pub empty_session : Session → Session
empty_session s = record s {
  current_index = 0;
  current_track = none;
  playhead = record (s.playhead) {
    status = Status.stopped;
    position_ms = pos 0;
    sequence = 0;
    instance_id = none;
    duration_ms = 0;
  };
}

abbrev pub set_cursor : ℕ → Option ℕ → Session → Session
set_cursor idx t s = record s { current_index = idx; current_track = t }

-- The UPDATE that starts the row at an index: cursor, new instance, duration.
abbrev pub start_row : Env → ℕ → ℕ → Dock → Dock
start_row env idx t d = record d {
  session = record (d.session) {
    current_index = idx;
    current_track = some t;
    playhead = record (new_instance env.now d.next_uuid d.session.playhead) {
      duration_ms = duration_of env.catalog t;
    };
  };
  next_uuid = d.next_uuid + 1;
}

abbrev pub set_status : Status → Session → Session
set_status st s = record s { playhead = record (s.playhead) { status = st } }

-- The same, with status='playing'.
abbrev pub play_row : Env → ℕ → ℕ → Dock → Dock
play_row env idx t d =
    let d' = start_row env idx t d in record d' { session = set_status Status.playing d'.session }

-- `if start < 0 || start >= len(tracks) { start = 0 }`.
abbrev pub start_of : ℤ → ℕ → ℕ
start_of start n = if is_negative start || leb n (floor_zero start) then 0 else floor_zero start

-- The session's UPDATE of `replaceQueueTx`, with the new rows in place.
pub start_queue : Env → List ℕ → ℤ → List Item → Dock → Dock
start_queue env ts start rows d =
    let d' = record d { items = rows; next_uuid = d.next_uuid + length ts } in
    let idx = start_of start (length ts) in
    elim (get_elem? ts idx) [
      | none ↦ record d' { session = empty_session d.session }
      | some t ↦ play_row env idx t d'
    ]

-- `replaceQueueTx`.
pub replace_queue : Env → List ℕ → ℤ → Dock → Try Dock
replace_queue env ts start d = do
  rows ← insert_tracks env.catalog env.who d.next_uuid 0 ts []
  ok (start_queue env ts start rows d)

-- `clearKeepCurrent`: the rows at the cursor stay, all at position 0; if none is there the current
-- track is queued again.
pub only_current : ℕ → ℕ → Dock → Dock
only_current idx t d = elim (keep (λ (r : Item). r.position == idx) d.items) [
  | [] ↦ record d {
    items =
        record {
          id = d.next_uuid;
          position = 0;
          track = t;
          origin = "user";
          by_user = none;
          by_discord = none;
        }
        ∷ [];
    next_uuid = d.next_uuid + 1;
    session = set_cursor 0 (some t) d.session;
  }
  | r ∷ rs ↦ record d {
    items = map (λ (x : Item). record x { position = 0 }) (r ∷ rs);
    session = set_cursor 0 (some t) d.session;
  }
]

abbrev pub no_track : Option ℕ → Bool
no_track none = true
no_track (some t) = t == nil_uuid

pub clear_keep_current : Dock → Dock
unfolding only_current
clear_keep_current d = elim d.session.current_track [
  | none ↦ record d { items = []; session = set_cursor 0 none d.session }
  | some t ↦
      if t == nil_uuid
      then record d { items = []; session = set_cursor 0 none d.session }
      else only_current d.session.current_index t d
]

abbrev pub stop_here : Session → Session
stop_here s = record s {
  playhead = record (s.playhead) { status = Status.stopped };
  modes = record (s.modes) { stop_after_current = false };
}

-- The end of `move`: to the row that `nextIndex` chose, or a stop.
pub move_to : Env → Next → Dock → Dock × Bool
move_to env n d =
    if n.stop
    then (record d { session = stop_here d.session }, true)
    else elim (get_elem? (tracks d.items) n.index) [
      | none ↦ (d, true)
      | some t ↦ (play_row env n.index t d, true)
    ]

-- `move`, by one row on or back, and whether it changed the session.
pub move : Env → ℤ → Bool → Dock → Dock × Bool
move env delta ended d =
    if d.session.modes.stop_after_current && (not (is_negative delta) && not (eq_ℤ delta (pos 0)))
    then (record d { session = stop_here d.session }, true)
    else (if length d.items == 0
        then (d, false)
        else move_to env
            (next_index (queue_meta env.catalog d.items) (pos d.session.current_index) delta
              d.session.modes.repeat_mode d.session.modes.shuffle_mode d.session.modes.shuffle ended
              (intn env.draw))
            d)

-- The cursor after `removeAt` has deleted a row and closed the gap.
unfoldable pub settle_cursor : Env → ℕ → ℕ → Dock → Dock
settle_cursor env pos_removed cur d =
    let idx = if ltb pos_removed cur then cur - 1 else cur in
    elim (track_at idx d.items) [
      | none ↦ record d { session = empty_session d.session }
      | some t ↦
          if pos_removed == cur
          then start_row env idx t d
          else record d { session = set_cursor idx (some t) d.session }
    ]

-- `removeAt`, and whether a row was deleted. No row has a negative position.
unfoldable pub remove_at : Env → ℤ → Dock → Dock × Bool
remove_at env (negsuc n) d = (d, false)
remove_at env (pos p) d =
    let rest = delete_at p d.items in
    if length rest == length d.items
    then (d, false)
    else (settle_cursor env p d.session.current_index (record d { items = close_gap p rest }), true)

-- `reorder`. A cursor outside the queue would write uuid.Nil, which the foreign key refuses.
pub reorder_rows : ℕ → ℕ → Item → Dock → Try Dock
reorder_rows from to moved d =
    let rows = move_row from to moved d.items in
    let idx = moved_index d.session.current_index from to in
    elim (get_elem? (tracks rows) idx) [
      | none ↦ err foreign_key
      | some t ↦
          ok (record d { items = renumber 0 rows; session = set_cursor idx (some t) d.session })
    ]

abbrev pub outside : ℤ → ℕ → Bool
outside i n = is_negative i || leb n (floor_zero i)

pub reorder : ℤ → ℤ → Dock → Try (Dock × Bool)
reorder from to d =
    if outside from (length d.items) || outside to (length d.items)
    then err invalid_reorder
    else (if eq_ℤ from to then ok (d, false) else elim (get_elem? d.items (floor_zero from)) [
      | none ↦ err invalid_reorder
      | some moved ↦ reorder_rows (floor_zero from) (floor_zero to) moved d >>= λ d'. ok (d', true)
    ])

-- The position of the first row of a track.
pub position_of : ℕ → List Item → Option ℕ
position_of t [] = none
position_of t (x ∷ xs) = if x.track == t then some x.position else position_of t xs

-- The current track, unless it is one of the dropped.
abbrev pub kept_track : List ℕ → Option ℕ → Option ℕ
kept_track gone none = none
kept_track gone (some t) = if t == nil_uuid || contains gone t then none else some t

-- The cursor falls back on the row now at its index, or on the last one.
pub fall_back : Env → Dock → Dock
fall_back env d =
    let n = length d.items in
    let cur = d.session.current_index in
    let idx = if leb n cur then n - 1 else cur in
    elim (track_at idx d.items) [
      | none ↦ record d { session = empty_session d.session }
      | some t ↦ start_row env idx t d
    ]

pub keep_or_fall_back : Env → Option ℕ → Dock → Dock
keep_or_fall_back env none d = fall_back env d
keep_or_fall_back env (some t) d = elim (position_of t d.items) [
  | none ↦ fall_back env d
  | some p ↦ record d { session = set_cursor p (some t) d.session }
]

-- The session over the rows that are left.
abbrev pub after_drop : Env → List ℕ → Dock → List Item → Dock
after_drop env gone d [] = record d { items = []; session = empty_session d.session }
after_drop env gone d (r ∷ rs) =
    keep_or_fall_back env (kept_track gone d.session.current_track) (record d { items = r ∷ rs })

-- `dropTracksFromSession`, without its `bumpRevision`.
pub drop_tracks : Env → List ℕ → Dock → Dock
drop_tracks env gone d = after_drop env gone d (renumber 0 (delete_tracks gone d.items))
