-- ===== src/Playback/Queue/Remove.antt =====
-- Deleting rows: `removeAt` and the queue part of `clear` (internal/playback/control.go) and of
-- `dropTracksFromSession` (internal/playback/drop.go).
use sound_dock.Base.{
  ℕ, zero, suc, ◌+◌, ◌≤◌, ◌<◌, ◌≡◌, refl, ap, List, [], ◌∷◌, length, arith, not, keep, contains,
}
use sound_dock.Playback.Session.{Item}
use sound_dock.Playback.Queue.{tracks, delete_at, close_gap, delete_tracks}
use sound_dock.Playback.Queue.Numbered.{Numbered}

-- The list without its element at an index.
abbrev pub erase_at {ℓ} : {A : Type ℓ} → ℕ → List A → List A
erase_at i [] = []
erase_at zero (x ∷ xs) = xs
erase_at (suc i) (x ∷ xs) = x ∷ erase_at i xs

-- Behind the deleted position nothing is deleted, and every row moves down by one.
delete_at-above :
    (n pos : ℕ) (rows : List Item) → Numbered n rows → pos < n → delete_at pos rows ≡ rows
unfolding delete_at
delete_at-above n pos [] h l = refl
delete_at-above n pos (x ∷ xs) h l = ground (arith, delete_at-above (suc n) pos xs h.1)

close_gap-above :
    (n pos : ℕ) (rows : List Item)
    → Numbered (suc n) rows
    → pos ≤ n
    → Numbered n (close_gap pos rows)
unfolding close_gap
close_gap-above n pos [] h l = tt
close_gap-above n pos (x ∷ xs) h l =
    (ground arith, close_gap-above (suc n) pos xs h.1 (omega arith))

tracks-close_gap : (pos : ℕ) (rows : List Item) → tracks (close_gap pos rows) ≡ tracks rows
unfolding close_gap
tracks-close_gap pos [] = refl
tracks-close_gap pos (x ∷ xs) = ground (arith, tracks-close_gap pos xs)

delete_at-hit :
    (pos : ℕ) (x : Item) (xs : List Item)
    → x.position ≡ pos
    → delete_at pos (x ∷ xs) ≡ delete_at pos xs
unfolding delete_at
delete_at-hit pos x xs e = ground arith

delete_at-miss :
    (pos : ℕ) (x : Item) (xs : List Item)
    → x.position < pos
    → delete_at pos (x ∷ xs) ≡ x ∷ delete_at pos xs
unfolding delete_at
delete_at-miss pos x xs l = ground arith

close_gap-below :
    (pos : ℕ) (x : Item) (xs : List Item)
    → x.position ≤ pos
    → close_gap pos (x ∷ xs) ≡ x ∷ close_gap pos xs
unfolding close_gap
close_gap-below pos x xs l = ground arith

-- `removeAt` on a well-formed queue: after the DELETE of a position and the shift of the positions
-- behind it, the queue is well formed and its tracks are the old ones without the one at that index.
pub remove_row :
    (n i pos : ℕ) (rows : List Item)
    → Numbered n rows
    → pos ≡ n + i
    → Numbered n (close_gap pos (delete_at pos rows))
      × (tracks (close_gap pos (delete_at pos rows)) ≡ erase_at i (tracks rows))
remove_row n i pos [] h e = unfold delete_at close_gap in (tt, refl)
remove_row n zero pos (x ∷ xs) h e =
    rw (delete_at-hit pos x xs (omega arith), delete_at-above (suc n) pos xs h.1 (omega arith))
      (close_gap-above n pos xs h.1 (omega arith), tracks-close_gap pos xs)
remove_row n (suc i) pos (x ∷ xs) h e =
    let (numbered, listed) = remove_row (suc n) i pos xs h.1 (omega arith) in
    rw
      (
        delete_at-miss pos x xs (omega arith),
        close_gap-below pos x (delete_at pos xs) (omega arith),
      )
      ((h.0, numbered), ap (◌∷◌ x.track) listed)

length-delete_at-le : (p : ℕ) (rows : List Item) → length (delete_at p rows) ≤ length rows
unfolding delete_at
length-delete_at-le p [] = omega arith
length-delete_at-le p (x ∷ xs) = ground (arith, length-delete_at-le p xs)

pub length-delete_at-lt :
    (n i p : ℕ) (rows : List Item)
    → Numbered n rows
    → p ≡ n + i
    → i < length rows
    → length (delete_at p rows) < length rows
unfolding delete_at
length-delete_at-lt n i p [] h e l = elim l [ ]
length-delete_at-lt n zero p (x ∷ xs) h e l = ground (arith, length-delete_at-le p xs)
length-delete_at-lt n (suc i) p (x ∷ xs) h e l =
    ground (arith, length-delete_at-lt (suc n) i p xs h.1)

-- Deleting by track and renumbering leaves the other tracks in their order, at 0, 1, 2, ….
pub tracks-delete_tracks :
    (gone : List ℕ) (rows : List Item)
    → tracks (delete_tracks gone rows) ≡ keep (λ t. not (contains gone t)) (tracks rows)
unfolding delete_tracks
tracks-delete_tracks gone [] = refl
tracks-delete_tracks gone (x ∷ xs) = ground (arith, tracks-delete_tracks gone xs)
