-- ===== src/Playback/Undo.antt =====
-- Undo of queue changes: `mergeUndoRows`, `replaceQueueRows`, `restoreUndo` and the reading of the
-- undo items of a request (internal/playback/control.go). No row of another session has an id that
-- an undo brings back, and the requesting users exist.
pub mod Restore
pub mod RoundTrip
pub mod Payload
use sound_dock.Base.{
  ℕ, zero, suc, ◌+◌, ℤ, pos, ltb_ℤ, floor_zero, eq_ℤ, Bool, true, false, not, ◌&&◌, ◌||◌, Option,
  none, some, String, str_eq, List, [], ◌∷◌, ◌++◌, map, ltb, leb, ◌==◌, if◌then◌else◌, length, take,
  drop, contains, ok, err, is_some,
}
use sound_dock.Playback.Session.{
  UndoItem, Item, Session, Dock, Try, nil_uuid, origin_user, undo_stale, foreign_key, Catalog,
}
use sound_dock.Playback.Queue.{tracks}
use sound_dock.Playback.Extra.{
  Value, null, bool, float, int, number, text, uuid, uuids, texts, list, dict, Values, nil, cons,
  Fields, get, extra_int, extra_string, trim,
}
use sound_dock.Playback.Env.{Env}
use sound_dock.Playback.Cursor.{set_cursor}

-- `loadQueueRows`.
abbrev pub load_row : Item → UndoItem
load_row r = record {
  id = r.id;
  track = r.track;
  position = pos r.position;
  origin = r.origin;
  by_user = r.by_user;
  by_discord = r.by_discord;
}

-- `sort.SliceStable` by position.
unfoldable pub sort_put : UndoItem → List UndoItem → List UndoItem
sort_put x [] = x ∷ []
sort_put x (y ∷ ys) = if ltb_ℤ y.position x.position then y ∷ sort_put x ys else x ∷ y ∷ ys

unfoldable pub sort_snap : List UndoItem → List UndoItem
unfolding sort_put
sort_snap [] = []
sort_snap (x ∷ xs) = sort_put x (sort_snap xs)

-- The ids in `byID`.
abbrev pub seen_id : ℕ → List ℕ → List ℕ
seen_id id seen = if id == nil_uuid then seen else id ∷ seen

unfoldable pub ids_of : List UndoItem → List ℕ
ids_of [] = []
ids_of (r ∷ rs) = seen_id r.id (ids_of rs)

-- `if it.TrackID == uuid.Nil`, and the test of `byID`.
abbrev pub is_skipped : List ℕ → UndoItem → Bool
is_skipped seen it = it.track == nil_uuid || (not (it.id == nil_uuid) && contains seen it.id)

abbrev pub insert_index : UndoItem → List UndoItem → ℕ
insert_index it out =
    if ltb (length out) (floor_zero it.position) then length out else floor_zero it.position

-- `append(out[:idx], append([]undoItem{it}, out[idx:]...)...)`.
abbrev pub insert_at : ℕ → UndoItem → List UndoItem → List UndoItem
insert_at idx it out = take idx out ++ it ∷ drop idx out

unfoldable pub merge_loop : List UndoItem → List ℕ → List UndoItem → List UndoItem
merge_loop [] seen out = out
merge_loop (it ∷ snap) seen out =
    let skip = merge_loop snap seen out in
    let put = merge_loop snap (seen_id it.id seen) (insert_at (insert_index it out) it out) in
    if is_skipped seen it then skip else put

-- `mergeUndoRows`; the positions are written by `replaceQueueRows`.
unfoldable pub merge_rows : List UndoItem → List UndoItem → List UndoItem
unfolding merge_loop sort_snap ids_of
merge_rows existing snap = merge_loop (sort_snap snap) (ids_of existing) existing

abbrev pub or_user : String → String
or_user o = if str_eq o "" then origin_user else o

-- `nullUUID` and `nullString`.
abbrev pub null_uuid : Option ℕ → Option ℕ
null_uuid none = none
null_uuid (some u) = if u == nil_uuid then none else some u

abbrev pub null_string : Option String → Option String
null_string none = none
null_string (some s) = if str_eq (trim s) "" then none else some (trim s)

-- The row that `replaceQueueRows` inserts under an id.
abbrev pub row_of : ℕ → ℕ → UndoItem → Item
row_of id position it = record {
  id = id;
  position = position;
  track = it.track;
  origin = or_user it.origin;
  by_user = null_uuid it.by_user;
  by_discord = null_string it.by_discord;
}

-- `replaceQueueRows`: a row without an id, or with one that is used, gets the next of the supply.
unfoldable pub restored_rows : ℕ → ℕ → List ℕ → List UndoItem → List Item × ℕ
restored_rows position fresh used [] = ([], fresh)
restored_rows position fresh used (it ∷ its) =
    let again = it.id == nil_uuid || contains used it.id in
    let id = if again then fresh else it.id in
    let (rows, next) =
      restored_rows (suc position) (if again then fresh + 1 else fresh) (id ∷ used) its in
    (row_of id position it ∷ rows, next)

-- Whether a track of the rows is missing from the catalogue.
unfoldable pub unknown_row : Catalog → List UndoItem → Bool
unknown_row cat [] = false
unknown_row cat (it ∷ its) = not (is_some (cat it.track)) || unknown_row cat its

-- The first row of a track.
unfoldable pub index_of : ℕ → ℕ → List Item → Option ℕ
index_of i t [] = none
index_of i t (r ∷ rs) = if r.track == t then some i else index_of (suc i) t rs

abbrev pub first_track : List Item → Option ℕ
first_track [] = none
first_track (r ∷ rs) = some r.track

-- The cursor that `restoreUndo` writes: the first row of the current track, else the first row.
unfoldable pub undo_cursor : Option ℕ → List Item → Session → Session
unfolding index_of
undo_cursor none rows s = set_cursor 0 (first_track rows) s
undo_cursor (some t) rows s =
    if t == nil_uuid then set_cursor 0 (first_track rows) s else elim (index_of 0 t rows) [
      | none ↦ set_cursor 0 (first_track rows) s
      | some i ↦ set_cursor i (some t) s
    ]

-- The queue and cursor after a merge.
unfoldable pub restored : List UndoItem → Dock → Dock
unfolding restored_rows
restored desired d =
    let (rows, next) = restored_rows 0 d.next_uuid [] desired in
    record d {
      items = rows;
      next_uuid = next;
      session = undo_cursor d.session.current_track rows d.session;
    }

abbrev pub is_empty : List UndoItem → Bool
is_empty [] = true
is_empty (x ∷ xs) = false

-- `restoreUndo`, with the generation and the items of the request.
unfoldable pub restore_undo : Env → Option ℤ → List UndoItem → Dock → Try Dock
restore_undo env generation snap d = elim generation [
  | none ↦ err undo_stale
  | some g ↦
      if not (eq_ℤ g (pos d.session.revision)) || is_empty snap
      then err undo_stale
      else (let desired = merge_rows (map load_row d.items) snap in
          if unknown_row env.catalog desired then err foreign_key else ok (restored desired d))
]

-- `extra["undo"].(map[string]any)`.
abbrev pub undo_dict : Fields → Option Fields
undo_dict extra = elim (get "undo" extra) [ dict fs ↦ some fs | _ ↦ none ]

abbrev pub first_some : Option ℤ → Option ℤ → Option ℤ
first_some (some a) b = some a
first_some none b = b

-- `undoGenerationOf`.
unfoldable pub undo_generation : Fields → Option ℤ
undo_generation extra = first_some (extra_int "undo_generation" extra) (elim (undo_dict extra) [
  | none ↦ none
  | some fs ↦ first_some (extra_int "undo_generation" fs) (extra_int "generation" fs)
])

-- `extraSlice`.
abbrev pub slice : String → Fields → Values
slice k extra = elim (get k extra) [ list vs ↦ vs | _ ↦ nil ]

-- `parseAnyUUID`.
unfoldable pub any_uuid : Env → Value → ℕ
any_uuid env (uuid u) = u
any_uuid env (text s) = elim (env.parse (trim s)) [ none ↦ nil_uuid | some u ↦ u ]
any_uuid env _ = nil_uuid

abbrev pub some_uuid : ℕ → Option ℕ
some_uuid u = if u == nil_uuid then none else some u

abbrev pub some_text : String → Option String
some_text s = if str_eq s "" then none else some s

abbrev pub or_option {ℓ} : {A : Type ℓ} → Option A → Option A → Option A
or_option (some a) b = some a
or_option none b = b

-- The requester in the nested `requested_by`.
abbrev pub requested_by : Fields → Fields
requested_by m = elim (get "requested_by" m) [ dict fs ↦ fs | _ ↦ Fields.end ]

-- `parseUndoItem`.
unfoldable pub parse_undo_item : Env → Fields → Option UndoItem
unfolding any_uuid
parse_undo_item env m =
    let t = any_uuid env (get "track_id" m) in
    let rb = requested_by m in
    if t == nil_uuid
    then none
    else some (record {
      id = any_uuid env (get "id" m);
      track = t;
      position = elim (extra_int "position" m) [ none ↦ pos 0 | some p ↦ p ];
      origin = or_user (extra_string "origin" m);
      by_user =
          or_option (some_uuid (any_uuid env (get "requested_by_user_id" m)))
            (some_uuid (any_uuid env (get "user_id" rb)));
      by_discord =
          or_option (some_text (extra_string "requested_by_discord_user_id" m))
            (some_text (extra_string "discord_user_id" rb));
    })

abbrev pub parse_value : Env → Value → Option UndoItem
parse_value env (dict m) = parse_undo_item env m
parse_value env _ = none

abbrev pub cons_item : Option UndoItem → List UndoItem → List UndoItem
cons_item none its = its
cons_item (some it) its = it ∷ its

unfoldable pub parse_values : Env → Values → List UndoItem
parse_values env nil = []
parse_values env (cons v vs) = cons_item (parse_value env v) (parse_values env vs)

abbrev pub nonempty : Values → Values → Values
nonempty nil b = b
nonempty (cons v vs) b = cons v vs

-- `parseUndoItems`.
unfoldable pub parse_undo_items : Env → Fields → List UndoItem
parse_undo_items env extra = parse_values env (
    nonempty (slice "items" extra)
      (elim (undo_dict extra) [ none ↦ nil | some fs ↦ slice "items" fs ]))
