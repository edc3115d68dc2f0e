-- ===== src/Playback/Tests.antt =====
-- A session with four tracks, on which the theorems about internal/playback are applied.
mod Commands
mod Queues
mod Undos
mod Leases
mod Order
mod Parties
mod Positions
mod Requests
mod Bindings
use sound_dock.Base.{
  ℕ, refl, ◌+◌, ℤ, pos, Bool, true, false, Option, none, some, String, List, [], ◌∷◌,
}
use sound_dock.Playback.Session.{
  Item, Requester, Track, Catalog, Playhead, Lease, Modes, Session, Receipt, Dock, RendererKind,
  OutputPref, Status, RepeatMode, ShuffleMode, origin_user,
}
use sound_dock.Playback.Env.{Env}
use sound_dock.Playback.Cursor.WellFormed.{WellFormed}

-- Every track is in the catalogue, on one album.
abbrev pub shop : Catalog
shop t = some (record { duration_ms = 1000 + t; album = 7; artist = t; disc = 1; track_no = t })

abbrev pub ann : Requester
ann = record { origin = origin_user; by_user = some 5; by_discord = none }

abbrev pub world : Env
world = record { now = 100; catalog = shop; who = ann; parse = λ s. some 3; draw = λ n. 0 }

abbrev pub row : ℕ → ℕ → ℕ → Item
row id position track = record {
  id = id;
  position = position;
  track = track;
  origin = "user";
  by_user = some 5;
  by_discord = none;
}

abbrev pub rows : List Item
rows = row 1 0 11 ∷ row 2 1 12 ∷ row 3 2 13 ∷ row 4 3 14 ∷ []

abbrev pub head_at : Playhead
head_at = record {
  status = Status.playing;
  position_ms = pos 500;
  checkpoint_at = some 90;
  sequence = 3;
  instance_id = some 40;
  duration_ms = 1012;
}

abbrev pub desk : Lease
desk = record {
  kind = RendererKind.browser;
  renderer = some "tab";
  generation = pos 4;
  heartbeat_at = some 95;
  output = OutputPref.browser;
}

abbrev pub knobs : Modes
knobs = record {
  volume = 0;
  volume_restore = none;
  muted = false;
  repeat_mode = RepeatMode.off;
  shuffle = false;
  shuffle_mode = ShuffleMode.random;
  stop_after_current = false;
  autoplay = false;
}

-- The second of the four tracks plays.
abbrev pub room : Session
room = record {
  current_index = 1;
  current_track = some 12;
  playhead = head_at;
  lease = desk;
  modes = knobs;
  revision = 9;
}

abbrev pub dock : Dock
dock = record { session = room; items = rows; receipts = []; next_uuid = 50 }

pub dock-WellFormed : WellFormed dock
dock-WellFormed = record { numbered = (refl, (refl, (refl, (refl, tt)))); cursor = refl }
