-- ===== src/Playback/Engine.antt =====
-- The engine's other transactions on a session (internal/playback/engine.go and drop.go), each under
-- the lock of the row. Writing tracks back from the archive (`unarchive`) is not modelled.
pub mod Kept
pub mod Reachable
use sound_dock.Base.{
  ℕ, ◌+◌, ℤ, pos, floor_zero, Bool, true, false, Option, none, some, List, [], ◌∷◌, length,
  if◌then◌else◌, ok, err, ◌>>=◌, any, contains, is_some, ◌||◌,
}
use sound_dock.Playback.Session.{Item, Session, Dock, Playhead, RendererKind, Try, bump_revision}
use sound_dock.Playback.Queue.{tracks, add_tracks}
use sound_dock.Playback.Env.{Env}
use sound_dock.Playback.Lease.{kind_eq}
use sound_dock.Playback.Cursor.{replace_queue, drop_tracks}

-- `bumpRevision` and the commit, or the rollback.
abbrev pub commit : Dock → Try Dock → Dock × Try (Unit {0})
commit d (ok d') = (record d' { session = bump_revision d'.session }, ok tt)
commit d (err e) = (d, err e)

-- `Replace`.
pub replace : Env → List ℕ → ℤ → Dock → Dock × Try (Unit {0})
replace env ts start d = commit d (replace_queue env ts start d)

-- `Add` and `AddLocked`.
pub add : Env → List ℕ → Bool → Dock → Dock × Try (Unit {0})
add env [] ahead d = (d, ok tt)
add env (t ∷ ts) ahead d = commit d (
    add_tracks env.catalog env.who d.next_uuid d.session.current_index (t ∷ ts) ahead d.items
    >>= λ rows. ok (record d { items = rows; next_uuid = d.next_uuid + length (t ∷ ts) }))

abbrev pub is_among : List ℕ → Option ℕ → Bool
is_among gone none = false
is_among gone (some t) = contains gone t

-- The sessions that `DropTracks` visits: a row or the current track is among the dropped.
pub is_affected : List ℕ → Dock → Bool
is_affected gone d = any (contains gone) (tracks d.items) || is_among gone d.session.current_track

-- `DropTracks`, on one session.
pub drop : Env → List ℕ → Dock → Dock
drop env gone d =
    if is_affected gone d
    then (let d' = drop_tracks env gone d in record d' { session = bump_revision d'.session })
    else d

-- `SetPosition`.
pub set_position : ℤ → Session → Session
set_position ms s =
    if kind_eq s.lease.kind RendererKind.idle
    then record s { playhead = record (s.playhead) { position_ms = pos (floor_zero ms) } }
    else s
