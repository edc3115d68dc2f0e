-- ===== src/Playback/Queue.antt =====
-- The statements that internal/playback/engine.go and control.go run on playback_queue_items.
-- The rows of one session are a list in their `ORDER BY position`: an INSERT puts its row behind
-- the rows of the same or a smaller position.
pub mod Numbered
pub mod Rows
pub mod Insert
pub mod Remove
pub mod Move
use sound_dock.Base.{
  ℕ, suc, ◌+◌, ◌-◌, Bool, not, Option, none, some, List, [], ◌∷◌, ◌++◌, map, ◌>>=◌, ok, err, ltb,
  ◌==◌, if◌then◌else◌, keep, contains, length, take, drop, Result, get_elem?, leb, ◌||◌, ◌&&◌,
}
use sound_dock.Playback.Session.{Item, Requester, Catalog, Try, foreign_key, invalid_reorder}

-- `SELECT track_id … ORDER BY position`.
abbrev pub tracks : List Item → List ℕ
tracks = map λ r. r.track

pub insert_row : Item → List Item → List Item
insert_row r [] = r ∷ []
insert_row r (x ∷ xs) = if ltb r.position x.position then r ∷ x ∷ xs else x ∷ insert_row r xs

-- The row that `insertQueueTrack` inserts.
abbrev pub new_item : Requester → ℕ → ℕ → ℕ → Item
new_item who id position track = record {
  id = id;
  position = position;
  track = track;
  origin = who.origin;
  by_user = who.by_user;
  by_discord = who.by_discord;
}

-- `insertQueueTrack`: the id is the next of the supply, and the track must be in the catalogue.
pub insert_track : Catalog → Requester → ℕ → ℕ → ℕ → List Item → Try (List Item)
unfolding insert_row
insert_track cat who id position track rows = elim (cat track) [
  | none ↦ err foreign_key
  | some _ ↦ ok (insert_row (new_item who id position track) rows)
]

-- `for i, t := range tracks { insertQueueTrack(…, position+i, t) }`.
pub insert_tracks : Catalog → Requester → ℕ → ℕ → List ℕ → List Item → Try (List Item)
unfolding insert_track
insert_tracks cat who id position [] rows = ok rows
insert_tracks cat who id position (t ∷ ts) rows =
    insert_track cat who id position t rows >>= insert_tracks cat who (suc id) (suc position) ts

-- `UPDATE … SET position=position+n WHERE position>cur`.
pub shift_after : ℕ → ℕ → List Item → List Item
shift_after cur n =
    map λ r. if ltb cur r.position then record r { position = r.position + n } else r

-- `SELECT coalesce(max(position),-1)`, plus one.
pub next_position : List Item → ℕ
next_position [] = 0
next_position (x ∷ xs) =
    let rest = next_position xs in if leb rest x.position then suc x.position else rest

-- `addTracksTx`: behind the current row, or at the end.
pub add_tracks : Catalog → Requester → ℕ → ℕ → List ℕ → Bool → List Item → Try (List Item)
unfolding insert_tracks shift_after next_position
add_tracks cat who id cur [] next rows = ok rows
add_tracks cat who id cur (t ∷ ts) next rows =
    if next
    then insert_tracks cat who id (cur + 1) (t ∷ ts) (shift_after cur (length (t ∷ ts)) rows)
    else insert_tracks cat who id (next_position rows) (t ∷ ts) rows

-- `DELETE … WHERE position=pos`, and whether it met a row.
unfoldable pub delete_at : ℕ → List Item → List Item
delete_at pos = keep λ r. not (r.position == pos)

-- `UPDATE … SET position=position-1 WHERE position>pos`.
unfoldable pub close_gap : ℕ → List Item → List Item
close_gap pos = map λ r. if ltb pos r.position then record r { position = r.position - 1 } else r

-- `SELECT … WHERE position=pos`.
abbrev pub rows_at : ℕ → List Item → List Item
rows_at pos = keep λ r. r.position == pos

-- `SELECT … WHERE position>pos`.
abbrev pub rows_after : ℕ → List Item → List Item
rows_after pos = keep λ r. ltb pos r.position

unfoldable pub track_at : ℕ → List Item → Option ℕ
track_at pos [] = none
track_at pos (x ∷ xs) = if x.position == pos then some x.track else track_at pos xs

-- `for i, r := range rows { UPDATE … SET position=i WHERE id=r.id }` over every row of the session.
pub renumber : ℕ → List Item → List Item
renumber n [] = []
renumber n (x ∷ xs) = record x { position = n } ∷ renumber (suc n) xs

-- `DELETE … WHERE track_id = ANY(gone)`.
pub delete_tracks : List ℕ → List Item → List Item
delete_tracks gone = keep λ r. not (contains gone r.track)

-- `rest := rows[:from] ++ rows[from+1:]`, then `rest[:to] ++ [moved] ++ rest[to:]`.
pub move_row {ℓ} : {A : Type ℓ} → ℕ → ℕ → A → List A → List A
move_row from to moved rows =
    let rest = take from rows ++ drop (suc from) rows in take to rest ++ moved ∷ drop to rest

-- The cursor that `reorder` writes.
pub moved_index : ℕ → ℕ → ℕ → ℕ
moved_index cur from to =
    if cur == from
    then to
    else (if ltb from cur && leb cur to
        then cur - 1
        else (if ltb cur from && leb to cur then cur + 1 else cur))
