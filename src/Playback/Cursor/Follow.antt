-- ===== src/Playback/Cursor/Follow.antt =====
-- The current song survives changes of the queue around it: `removeAt` and `reorder`
-- (internal/playback/control.go).
use mathlib.Core.List.{Perm}
use mathlib.Core.List.Perm
use sound_dock.Base.{
  ℕ, zero, suc, ◌-◌, ◌<◌, ◌≡◌, refl, ap, ◌∙◌, ◌≢◌, pos, true, some, List, [], ◌∷◌, length,
  get_elem?, ok, arith, ltb, if◌then◌else◌, get_elem?-map, get_elem?-lt,
}
use sound_dock.Playback.Session.{Item, Dock}
use sound_dock.Playback.Queue.{
  tracks, delete_at, close_gap, track_at, renumber, move_row, moved_index,
}
use sound_dock.Playback.Queue.Numbered.{tracks-renumber, track_at-eq}
use sound_dock.Playback.Queue.Remove.{erase_at, remove_row, length-delete_at-lt}
use sound_dock.Playback.Queue.Move.{reorder_keeps_cursor, move_row-perm}
use sound_dock.Playback.Env.{Env}
use sound_dock.Playback.Cursor.{remove_at, settle_cursor, reorder, reorder_rows, set_cursor}
use sound_dock.Playback.Cursor.WellFormed.{WellFormed}

get_elem?-erase_at :
    (p cur : ℕ) (xs : List ℕ)
    → p ≢ cur
    → get_elem? (erase_at p xs) (if ltb p cur then cur - 1 else cur) ≡ get_elem? xs cur
get_elem?-erase_at p cur [] n = ground arith
get_elem?-erase_at zero zero (x ∷ xs) n = absurd (n refl)
get_elem?-erase_at zero (suc cur) (x ∷ xs) n = ground arith
get_elem?-erase_at (suc p) zero (x ∷ xs) n = ground arith
get_elem?-erase_at (suc p) (suc zero) (x ∷ xs) n = ground (arith, get_elem?-erase_at p zero xs)
get_elem?-erase_at (suc p) (suc (suc cur)) (x ∷ xs) n =
    ground (arith, get_elem?-erase_at p (suc cur) xs)

settle_cursor-keeps :
    (env : Env) (p : ℕ) (d : Dock) (t : ℕ)
    → p ≢ d.session.current_index
    → track_at
        (if ltb p d.session.current_index
          then d.session.current_index - 1
          else d.session.current_index)
        d.items
      ≡ some t
    → ((settle_cursor env p d.session.current_index d).items ≡ d.items)
      × ((settle_cursor env p d.session.current_index d).session.current_track ≡ some t)
      × ((settle_cursor env p d.session.current_index d).session.playhead ≡ d.session.playhead)
unfolding settle_cursor
settle_cursor-keeps env p d t n e = ground arith

-- Removing a row of the queue other than the current one, in a well-formed session with a current
-- track: the row is removed and nothing else, the current track is the same, and the playhead
-- (status, position, instance, sequence) does not change.
pub remove_at_keeps_song :
    (env : Env) (p t : ℕ) (d : Dock)
    → WellFormed d
    → d.session.current_track ≡ some t
    → p < length d.items
    → p ≢ d.session.current_index
    → ((remove_at env (pos p) d).1 ≡ true)
      × (tracks (remove_at env (pos p) d).0.items ≡ erase_at p (tracks d.items))
      × ((remove_at env (pos p) d).0.session.current_track ≡ some t)
      × ((remove_at env (pos p) d).0.session.playhead ≡ d.session.playhead)
unfolding remove_at
remove_at_keeps_song env p t d w c l n =
    let here : get_elem? (tracks d.items) d.session.current_index ≡ some t = ground (arith, w) in
    let (numbered, listed) = remove_row 0 p p d.items w.numbered (omega arith) in
    let d' = record d { items = close_gap p (delete_at p d.items) } in
    let idx =
      if ltb p d.session.current_index
      then d.session.current_index - 1
      else d.session.current_index in
    let shorter = length-delete_at-lt 0 p p d.items w.numbered (omega arith) l in
    let found : track_at idx d'.items ≡ some t =
      track_at-eq d'.items idx numbered
      ∙ ap (λ ts. get_elem? ts idx) listed
      ∙ get_elem?-erase_at p d.session.current_index (tracks d.items) n
      ∙ here in
    ground (arith, listed, shorter, settle_cursor-keeps env p d' t n found)

reorder_rows-some :
    (from to t : ℕ) (moved : Item) (d : Dock)
    → get_elem?
        (tracks (move_row from to moved d.items))
        (moved_index d.session.current_index from to)
      ≡ some t
    → reorder_rows from to moved d
      ≡ ok (record d {
        items = renumber 0 (move_row from to moved d.items);
        session = set_cursor (moved_index d.session.current_index from to) (some t) d.session;
      })
unfolding reorder_rows
reorder_rows-some from to t moved d e = ground arith

get_elem?-tracks :
    (rows : List Item) (i t : ℕ)
    → get_elem? (tracks rows) i ≡ some t
    → (r : Item) × (get_elem? rows i ≡ some r) × (r.track ≡ t)
get_elem?-tracks [] i t h = cc
get_elem?-tracks (x ∷ xs) zero t h = (x, refl, cc)
get_elem?-tracks (x ∷ xs) (suc i) t h = get_elem?-tracks xs i t h

-- Moving a row of a well-formed queue with a current track between two different places inside the
-- queue succeeds; the tracks are a rearrangement of the old ones, the current track is the same, and
-- the playhead does not change.
pub reorder_keeps_song :
    (from to t : ℕ) (d : Dock)
    → WellFormed d
    → d.session.current_track ≡ some t
    → from < length d.items
    → to < length d.items
    → from ≢ to
    → (d' : Dock) × (reorder (pos from) (pos to) d ≡ ok (d', true))
      × Perm (tracks d'.items) (tracks d.items)
      × (d'.session.current_track ≡ some t)
      × (d'.session.playhead ≡ d.session.playhead)
unfolding reorder
reorder_keeps_song from to t d w c f l n =
    let here : get_elem? (tracks d.items) d.session.current_index ≡ some t = ground (arith, w) in
    let (moved, e) = get_elem?-lt d.items from f in
    let (r, at, same) = get_elem?-tracks d.items d.session.current_index t here in
    let rows = move_row from to moved d.items in
    let idx = moved_index d.session.current_index from to in
    let kept : get_elem? (tracks rows) idx ≡ some t =
      get_elem?-map rows (λ (x : Item). x.track) idx
        (reorder_keeps_cursor from to d.session.current_index moved d.items f l e ∙ at)
      ∙ ap some same in
    (
      record d { items = renumber 0 rows; session = set_cursor idx (some t) d.session },
      ground (arith, reorder_rows-some from to t moved d kept),
      rw (tracks-renumber 0 rows)
          (Perm.map (λ (x : Item). x.track) (move_row-perm from to moved d.items e)),
      refl,
      refl,
    )
