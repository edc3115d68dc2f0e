-- ===== src/Playback/Tests/Positions.antt =====
-- Position writes on the session of the tests.
use sound_dock.Base.{◌≡◌, refl, pos, ok}
use sound_dock.Playback.Position.{checkpoint_playhead, at_position}
use sound_dock.Playback.Tests.{room}

checkpoints : checkpoint_playhead 120 40 (pos 900) room ≡ ok (at_position 120 900 room)
unfolding checkpoint_playhead
checkpoints = refl
