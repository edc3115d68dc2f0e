-- ===== src/Playback/Position.antt =====
-- internal/playback/playhead.go: the writes that tell where in a track a session is, without a new
-- state revision. The row of the session is there.
pub mod Writes
use sound_dock.Base.{
  ℕ, ◌+◌, ◌-◌, ℤ, pos, negsuc, floor_zero, pos_part, neg_part, Bool, true, false, not, ◌&&◌, ◌||◌,
  Option, none, some, leb, ◌==◌, if◌then◌else◌, holds, ok, err,
}
use sound_dock.Playback.Session.{
  Session, Playhead, RendererKind, Status, Try, Error, nil_uuid, no_rows, instance_mismatch,
}
use sound_dock.Playback.Lease.{kind_eq}
use sound_dock.Playback.Control.{is_playing}
use sound_dock.Playback.Cursor.{stamp}

-- checkpointMaxDriftMS.
abbrev pub max_drift : ℕ
max_drift = 8000

-- `abs(position_ms - $3)`, the new position not negative.
abbrev pub drift : ℤ → ℕ → ℕ
drift (pos a) b = (a - b) + (b - a)
drift (negsuc a) b = a + 1 + b

abbrev pub may_checkpoint : ℕ → ℕ → Playhead → Bool
may_checkpoint instance ms p =
    holds p.instance_id instance && (leb p.sequence 1 || leb (drift p.position_ms ms) max_drift)

abbrev pub at_position : ℕ → ℕ → Session → Session
at_position now ms s = record s {
  playhead = record (stamp now s.playhead) { position_ms = pos ms };
}

-- The SELECT of a write that met no row. A NULL instance cannot be scanned into a UUID.
abbrev pub mismatch : Option ℕ → ℕ → Session → Try Session
mismatch none instance s = err no_rows
mismatch (some found) instance s = if not (found == instance) then err instance_mismatch else ok s

-- `CheckpointPlayhead`.
unfoldable pub checkpoint_playhead : ℕ → ℕ → ℤ → Session → Try Session
checkpoint_playhead now instance ms s =
    if may_checkpoint instance (floor_zero ms) s.playhead
    then ok (at_position now (floor_zero ms) s)
    else mismatch s.playhead.instance_id instance s

-- `PersistPosition`, and whether the position was stored.
pub persist_position : ℕ → ℕ → ℤ → Session → Session × Bool
persist_position now instance ms s =
    if instance == nil_uuid
    then (s, false)
    else (if holds s.playhead.instance_id instance
          && is_playing s.playhead.status
          && not (kind_eq s.lease.kind RendererKind.discord)
        then (at_position now (floor_zero ms) s, true)
        else (s, false))
