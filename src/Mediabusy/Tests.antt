-- ===== src/Mediabusy/Tests.antt =====
-- Two streams of one track, one of which ends twice.
use sound_dock.Base.{◌≡◌, refl, [], ◌∷◌, List, ltb, arith}
use sound_dock.Mediabusy.{Use, use_all, value, is_held, use_set}
use sound_dock.Mediabusy.Counted.{nobody, outstanding, use_all_counts}

-- Track 7 is held twice, and the second of the two releases is called twice.
abbrev streams : List Use
streams = Use.holds_track 7 ∷ Use.holds_track 7 ∷ Use.calls 0 ∷ Use.calls 0 ∷ []

use_all_counts_example :
    (value ((use_all streams nobody).counts 7) ≡ outstanding 7 (use_all streams nobody).tickets)
    × (is_held 7 (use_all streams nobody).counts
        ≡ ltb 0 (outstanding 7 (use_all streams nobody).tickets))
use_all_counts_example = use_all_counts streams 7 (ground arith)

one_stream_left : outstanding 7 (use_all streams nobody).tickets ≡ 1
unfolding use_all use_set
one_stream_left = refl
