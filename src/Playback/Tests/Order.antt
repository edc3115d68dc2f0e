-- ===== src/Playback/Tests/Order.antt =====
-- What plays next on a queue of three rows.
use mathlib.Core.List.{Perm}
use sound_dock.Base.{
  ℕ, ◌-◌, ◌<◌, ◌≡◌, refl, pos, negsuc, false, some, List, [], ◌∷◌, length, get_elem?, leb,
  if◌then◌else◌, arith,
}
use sound_dock.Playback.Session.{RepeatMode, ShuffleMode}
use sound_dock.Playback.Next.{
  QueueMeta, next_index, next_album, album_order, album_sort, sort_insert, album_less, indexed,
  same_artist, at, go, halt, is_queue,
}
use sound_dock.Playback.Next.Bounds.{InRange, next_index-lt}
use sound_dock.Playback.Next.Smart.{IsOther}
use sound_dock.Playback.Next.Album.{indices, IsSorted, next_album_successor}

-- Two rows of one artist and one of another, out of album order.
abbrev shelf : List QueueMeta
shelf =
    record { position = 0; track = 11; album = 7; artist = 3; disc = 1; track_no = 2 }
    ∷ record { position = 1; track = 12; album = 7; artist = 3; disc = 1; track_no = 1 }
    ∷ record { position = 2; track = 13; album = 6; artist = 4; disc = 1; track_no = 9 }
    ∷ []

abbrev last_of : ℕ → ℕ
last_of n = n - 1

last_of-InRange : InRange last_of
last_of-InRange n h = omega (arith, h)

next_index-lt_example :
    (next_index shelf
      (pos 9)
      (negsuc 1)
      RepeatMode.queue
      ShuffleMode.random
      false
      false
      last_of).index
    < 3
next_index-lt_example =
    next_index-lt shelf (pos 9) (negsuc 1) RepeatMode.queue ShuffleMode.random false false last_of
      last_of-InRange (omega arith)

abbrev first_row : QueueMeta
first_row = record { position = 0; track = 11; album = 7; artist = 3; disc = 1; track_no = 2 }

abbrev third_row : QueueMeta
third_row = record { position = 2; track = 13; album = 6; artist = 4; disc = 1; track_no = 9 }

third-IsOther : IsOther first_row 0 shelf 2
unfolding same_artist
third-IsOther = ((λ e. omega (arith, e)), (third_row, refl, refl))

second_in_order : get_elem? (album_order shelf) 1 ≡ some 1
unfolding album_order album_sort sort_insert album_less indexed
second_in_order = refl

next_album_successor_example :
    Perm (album_order shelf) (indices 0 (length shelf))
    × IsSorted (album_sort (indexed 0 shelf))
    × (next_album shelf 1 RepeatMode.off ≡ (
        if leb (length (album_order shelf)) 2
        then (if is_queue RepeatMode.off then go (at (album_order shelf) 0) else halt 1)
        else go (at (album_order shelf) 2)))
next_album_successor_example = next_album_successor shelf 1 1 RepeatMode.off second_in_order
