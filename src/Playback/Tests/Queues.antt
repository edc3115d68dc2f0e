-- ===== src/Playback/Tests/Queues.antt =====
-- Queue changes on the session of the tests.
use mathlib.Core.List.{Perm}
use sound_dock.Base.{◌≡◌, refl, ◌⊎◌, pos, true, false, some, List, [], ◌∷◌, ok, err, arith}
use sound_dock.Playback.Session.{Item, Dock, foreign_key}
use sound_dock.Playback.Queue.{tracks, add_tracks}
use sound_dock.Playback.Queue.Numbered.{Numbered}
use sound_dock.Playback.Queue.Insert.{add_tracks-refines, unknown_track, added}
use sound_dock.Playback.Cursor.{remove_at, reorder, drop_tracks}
use sound_dock.Playback.Cursor.Follow.{remove_at_keeps_song, reorder_keeps_song}
use sound_dock.Playback.Cursor.Drop.{drop_tracks_keeps_song}
use sound_dock.Playback.Tests.{world, shop, ann, rows, dock, dock-WellFormed}

-- Two tracks behind the second row.
add_tracks-refines_example :
    ((unknown_track shop (21 ∷ 22 ∷ []) ≡ true)
      × (add_tracks shop ann 50 1 (21 ∷ 22 ∷ []) true rows ≡ err foreign_key))
    ⊎ ((unknown_track shop (21 ∷ 22 ∷ []) ≡ false)
        × ((out : List Item) × (add_tracks shop ann 50 1 (21 ∷ 22 ∷ []) true rows ≡ ok out)
            × Numbered 0 out
            × (tracks out ≡ added 1 (21 ∷ 22 ∷ []) true (tracks rows))))
add_tracks-refines_example =
    add_tracks-refines shop ann 50 1 (21 ∷ 22 ∷ []) true rows (refl, (refl, (refl, (refl, tt))))
      (λ e. omega arith)

remove_at_keeps_song_example :
    ((remove_at world (pos 0) dock).1 ≡ true)
    × (tracks (remove_at world (pos 0) dock).0.items ≡ 12 ∷ 13 ∷ 14 ∷ [])
    × ((remove_at world (pos 0) dock).0.session.current_track ≡ some 12)
    × ((remove_at world (pos 0) dock).0.session.playhead ≡ dock.session.playhead)
remove_at_keeps_song_example =
    remove_at_keeps_song world 0 12 dock dock-WellFormed refl (omega arith) (λ e. omega (arith, e))

reorder_keeps_song_example :
    (d' : Dock) × (reorder (pos 3) (pos 0) dock ≡ ok (d', true))
    × Perm (tracks d'.items) (tracks dock.items)
    × (d'.session.current_track ≡ some 12)
    × (d'.session.playhead ≡ dock.session.playhead)
reorder_keeps_song_example =
    reorder_keeps_song 3 0 12 dock dock-WellFormed refl (omega arith) (omega arith)
      (λ e. omega (arith, e))

drop_tracks_keeps_song_example :
    ((drop_tracks world (11 ∷ 13 ∷ []) dock).session.current_track ≡ some 12)
    × ((drop_tracks world (11 ∷ 13 ∷ []) dock).session.playhead ≡ dock.session.playhead)
drop_tracks_keeps_song_example =
    drop_tracks_keeps_song world (11 ∷ 13 ∷ []) 12 dock dock-WellFormed refl (λ e. omega (arith, e))
      refl
