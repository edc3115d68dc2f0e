-- ===== src/Playback/Session.antt =====
-- The row of playback_sessions, grouped by the component that owns the columns, the rows of
-- playback_queue_items, and the errors of internal/playback/errors.go. A UUID is a number and
-- uuid.Nil is 0; a time is a number of seconds; NULL is `none`.
use sound_dock.Base.{ℕ, ℤ, ◌+◌, Bool, Option, String, List, Result}

pub data Error : Type 0 where
  command_conflict bind_conflict lease_conflict instance_mismatch undo_stale : Error
  no_rows foreign_key invalid_repeat_mode autoplay_required invalid_output_pref : Error
  index_required index_out_of_range reorder_required invalid_reorder unknown_action : Error
  command_failed forbidden party_inactive party_forbidden join_first not_host bad_role : Error
  member_not_found : Error

abbrev pub Try : Type 0 → Type 0
Try A = Result Error A

-- uuid.Nil.
abbrev pub nil_uuid : ℕ
nil_uuid = 0

-- OriginUser, OriginAutoplay, OriginRadio. The column is text, and an undo writes what it is sent.
abbrev pub origin_user : String
origin_user = "user"

abbrev pub origin_autoplay : String
origin_autoplay = "autoplay"

abbrev pub origin_radio : String
origin_radio = "radio"

pub data RendererKind : Type 0 where
  idle browser discord : RendererKind

pub data OutputPref : Type 0 where
  browser discord : OutputPref

pub data Status : Type 0 where
  stopped playing paused interrupted : Status

pub data RepeatMode : Type 0 where
  off queue one : RepeatMode

pub data ShuffleMode : Type 0 where
  random smart album : ShuffleMode

-- A row of playback_queue_items of one session.
pub record Item : Type 0 where
  pub id : ℕ
  pub position : ℕ
  pub track : ℕ
  pub origin : String
  pub by_user : Option ℕ
  pub by_discord : Option String

-- What a request says of its sender: `WithOrigin` and `WithRequester`.
pub record Requester : Type 0 where
  pub origin : String
  pub by_user : Option ℕ
  pub by_discord : Option String

-- The columns of the tracks table that playback reads, and their first primary artist.
pub record Track : Type 0 where
  pub duration_ms : ℕ
  pub album : ℕ
  pub artist : ℕ
  pub disc : ℕ
  pub track_no : ℕ

abbrev pub Catalog : Type 0
Catalog = ℕ → Option Track

-- status, position_ms, checkpoint_at, playhead_sequence, playback_instance_id, duration_ms.
pub record Playhead : Type 0 where
  pub status : Status
  pub position_ms : ℤ
  pub checkpoint_at : Option ℕ
  pub sequence : ℕ
  pub instance_id : Option ℕ
  pub duration_ms : ℕ

-- renderer_kind, renderer_id, renderer_generation, renderer_heartbeat_at, output_pref.
pub record Lease : Type 0 where
  pub kind : RendererKind
  pub renderer : Option String
  pub generation : ℤ
  pub heartbeat_at : Option ℕ
  pub output : OutputPref

-- The columns that the buttons of a player set. `volume` counts the units of a float64 (2⁻¹⁰⁷⁴).
pub record Modes : Type 0 where
  pub volume : ℕ
  pub volume_restore : Option ℕ
  pub muted : Bool
  pub repeat_mode : RepeatMode
  pub shuffle : Bool
  pub shuffle_mode : ShuffleMode
  pub stop_after_current : Bool
  pub autoplay : Bool

pub record Session : Type 0 where
  pub current_index : ℕ
  pub current_track : Option ℕ
  pub playhead : Playhead
  pub lease : Lease
  pub modes : Modes
  pub revision : ℕ

-- `undoItem`: a row as it was, its position as a request may send it.
pub record UndoItem : Type 0 where
  pub id : ℕ
  pub track : ℕ
  pub position : ℤ
  pub origin : String
  pub by_user : Option ℕ
  pub by_discord : Option String

-- playback_command_receipts: what a command with an id left behind.
pub record Receipt : Type 0 where
  pub command : String
  pub hash : ℕ
  pub status : ℕ
  pub revision : ℕ
  pub item : Option ℕ
  pub undo : Option (ℕ × List UndoItem)

-- What the database holds of one session, and the next UUID of the supply.
pub record Dock : Type 0 where
  pub session : Session
  pub items : List Item
  pub receipts : List Receipt
  pub next_uuid : ℕ

-- `bumpRevision`.
abbrev pub bump_revision : Session → Session
bump_revision s = record s { revision = s.revision + 1 }
