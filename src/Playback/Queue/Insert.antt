-- ===== src/Playback/Queue/Insert.antt =====
-- `addTracksTx` (internal/playback/engine.go) refines inserting into a list of tracks.
use sound_dock.Playback.Queue.Rows.{
  new_rows, new_rows-Numbered, tracks-new_rows, length-new_rows, insert_tracks-between,
  shift_after-Numbered, shift_after-split, tracks-shift_after, Numbered-Clear,
}
use sound_dock.Base.{
  length-take-of_le, take-append-drop, ℕ, zero, suc, ◌+◌, ◌<◌, ◌≡◌, refl, ap, ap₂, ◌∙◌, List, [],
  ◌∷◌, ◌++◌, length, take, drop, arith, ok, true, false, Bool, any, not, is_some, Option-cases, inl,
  inr, err, ◌⊎◌, Bool-cases,
}
use mathlib.Core.List.{append-nil, map-append}
use sound_dock.Playback.Session.{Item, Catalog, Requester, foreign_key}
use sound_dock.Playback.Queue.{
  tracks, new_item, insert_row, insert_track, insert_tracks, shift_after, next_position, add_tracks,
}
use sound_dock.Playback.Queue.Numbered.{
  Numbered, Numbered-cast, Numbered-append, Numbered-take, Numbered-drop, next_position-Numbered,
}

-- The list that `Add` means: the tracks behind the current one, or at the end.
unfoldable pub added : ℕ → List ℕ → Bool → List ℕ → List ℕ
added cur ts true old = take (suc cur) old ++ (ts ++ drop (suc cur) old)
added cur ts false old = old ++ ts

take-tracks : (n : ℕ) (rows : List Item) → tracks (take n rows) ≡ take n (tracks rows)
take-tracks zero rows = refl
take-tracks (suc n) [] = refl
take-tracks (suc n) (x ∷ rows) = ap (◌∷◌ x.track) (take-tracks n rows)

drop-tracks : (n : ℕ) (rows : List Item) → tracks (drop n rows) ≡ drop n (tracks rows)
drop-tracks zero rows = refl
drop-tracks (suc n) [] = refl
drop-tracks (suc n) (x ∷ rows) = drop-tracks n rows

pub insert_tracks-lem :
    (cat : Catalog) (who : Requester) (id p : ℕ) (ts : List ℕ) (front back : List Item)
    {out : List Item}
    → Numbered 0 front
    → p ≡ length front
    → Numbered (p + length ts) back
    → insert_tracks cat who id p ts (front ++ back) ≡ ok out
    → Numbered 0 out × (tracks out ≡ tracks front ++ (ts ++ tracks back))
insert_tracks-lem cat who id p ts front back h l k e =
    let out_eq =
      insert_tracks-between cat who id p ts front back h l (Numbered-Clear p (length ts) back k)
        e in
    (
      rw out_eq (
          Numbered-append 0 front (new_rows who id p ts ++ back) h (
            Numbered-append (0 + length front) (new_rows who id p ts) back
              (Numbered-cast (new_rows who id p ts) (omega (arith, l))
                (new_rows-Numbered who id p ts))
              (Numbered-cast back (omega (arith, l, length-new_rows who id p ts)) k))),
      rw (out_eq, map-append, map-append, tracks-new_rows who id p ts) refl,
    )

insert_next :
    (cat : Catalog) (who : Requester) (id cur : ℕ) (ts : List ℕ) (rows : List Item)
    {out : List Item}
    → Numbered 0 rows
    → cur < length rows
    → insert_tracks cat who id (cur + 1) ts (shift_after cur (length ts) rows) ≡ ok out
    → Numbered 0 out × (tracks out ≡ added cur ts true (tracks rows))
unfolding added
insert_next cat who id cur ts rows h l e =
    let front = take (suc cur) rows in
    let back = shift_after cur (length ts) (drop (suc cur) rows) in
    let (numbered, listed) =
      insert_tracks-lem cat who id (cur + 1) ts front back (Numbered-take 0 (suc cur) rows h)
        (omega (arith, length-take-of_le (suc cur) rows l))
        (Numbered-cast back (omega arith) (
          shift_after-Numbered (suc cur) cur (length ts) (drop (suc cur) rows)
            (Numbered-cast (drop (suc cur) rows) (omega arith) (Numbered-drop 0 (suc cur) rows h))
            (omega arith)))
        (rw (shift_after-split 0 cur cur (length ts) rows h (omega arith)) at e) in
    (
      numbered,
      listed
          ∙ ap₂ (λ xs ys. xs ++ (ts ++ ys)) (take-tracks (suc cur) rows)
              (tracks-shift_after cur (length ts) (drop (suc cur) rows)
                ∙ drop-tracks (suc cur) rows),
    )

insert_last :
    (cat : Catalog) (who : Requester) (id cur : ℕ) (ts : List ℕ) (rows : List Item)
    {out : List Item}
    → Numbered 0 rows
    → insert_tracks cat who id (next_position rows) ts rows ≡ ok out
    → Numbered 0 out × (tracks out ≡ added cur ts false (tracks rows))
unfolding added
insert_last cat who id cur ts rows h e =
    let (numbered, listed) =
      insert_tracks-lem cat who id (next_position rows) ts rows [] h (next_position-Numbered rows h)
        tt (rw append-nil e) in
    (numbered, listed ∙ ap (λ ys. tracks rows ++ ys) (append-nil ts))

added-nil : (cur : ℕ) (next : Bool) (old : List ℕ) → added cur [] next old ≡ old
unfolding added
added-nil cur true old = take-append-drop (suc cur) old
added-nil cur false old = append-nil old

nothing_added :
    (cur : ℕ) (next : Bool) (rows : List Item) {out : List Item}
    → Numbered 0 rows
    → rows ≡ out
    → Numbered 0 out × (tracks out ≡ added cur [] next (tracks rows))
nothing_added cur next rows h e = rw (← e, added-nil) (h, refl)

pub add_tracks_sound :
    (cat : Catalog) (who : Requester) (id cur : ℕ) (ts : List ℕ) (next : Bool) (rows : List Item)
    {out : List Item}
    → Numbered 0 rows
    → (next ≡ true → cur < length rows)
    → add_tracks cat who id cur ts next rows ≡ ok out
    → Numbered 0 out × (tracks out ≡ added cur ts next (tracks rows))
unfolding add_tracks
add_tracks_sound cat who id cur [] next rows h l e = nothing_added cur next rows h cc
add_tracks_sound cat who id cur (t ∷ ts) true rows h l e =
    insert_next cat who id cur (t ∷ ts) rows h (l refl) e
add_tracks_sound cat who id cur (t ∷ ts) false rows h l e =
    insert_last cat who id cur (t ∷ ts) rows h e

-- Whether some track is missing from the catalogue.
abbrev pub unknown_track : Catalog → List ℕ → Bool
unknown_track cat = any λ t. not (is_some (cat t))

insert_tracks-unknown :
    (cat : Catalog) (who : Requester) (id p : ℕ) (ts : List ℕ) (rows : List Item)
    → unknown_track cat ts ≡ true
    → insert_tracks cat who id p ts rows ≡ err foreign_key
unfolding insert_tracks insert_track
insert_tracks-unknown cat who id p [] rows h = cc
insert_tracks-unknown cat who id p (t ∷ ts) rows h = ground (
  arith,
  insert_tracks-unknown cat who (suc id) (suc p) ts (insert_row (new_item who id p t) rows),
)

insert_tracks-known :
    (cat : Catalog) (who : Requester) (id p : ℕ) (ts : List ℕ) (rows : List Item)
    → unknown_track cat ts ≡ false
    → (out : List Item) × (insert_tracks cat who id p ts rows ≡ ok out)
unfolding insert_tracks insert_track
insert_tracks-known cat who id p [] rows h = (rows, refl)
insert_tracks-known cat who id p (t ∷ ts) rows h = elim (Option-cases (cat t)) [
  | inl e ↦ absurd (ground arith)
  | inr (d, e) ↦
      rw (e, insert_track)
        (insert_tracks-known cat who (suc id) (suc p) ts (insert_row (new_item who id p t) rows)
          (ground arith))
]

add_tracks-unknown :
    (cat : Catalog) (who : Requester) (id cur : ℕ) (ts : List ℕ) (next : Bool) (rows : List Item)
    → unknown_track cat ts ≡ true
    → add_tracks cat who id cur ts next rows ≡ err foreign_key
unfolding add_tracks
add_tracks-unknown cat who id cur [] next rows h = cc
add_tracks-unknown cat who id cur (t ∷ ts) true rows h =
    insert_tracks-unknown cat who id (cur + 1) (t ∷ ts) (shift_after cur (length (t ∷ ts)) rows) h
add_tracks-unknown cat who id cur (t ∷ ts) false rows h =
    insert_tracks-unknown cat who id (next_position rows) (t ∷ ts) rows h

add_tracks-known :
    (cat : Catalog) (who : Requester) (id cur : ℕ) (ts : List ℕ) (next : Bool) (rows : List Item)
    → unknown_track cat ts ≡ false
    → (out : List Item) × (add_tracks cat who id cur ts next rows ≡ ok out)
unfolding add_tracks
add_tracks-known cat who id cur [] next rows h = (rows, refl)
add_tracks-known cat who id cur (t ∷ ts) true rows h =
    insert_tracks-known cat who id (cur + 1) (t ∷ ts) (shift_after cur (length (t ∷ ts)) rows) h
add_tracks-known cat who id cur (t ∷ ts) false rows h =
    insert_tracks-known cat who id (next_position rows) (t ∷ ts) rows h

-- `addTracksTx` on a well-formed queue, with the cursor on a row when `next` is set: if a track is
-- missing from the catalogue it fails on the foreign key; otherwise it succeeds, the positions are
-- 0, 1, 2, … again, and the queue holds the old tracks with the new ones, in their order, directly
-- behind the current track when `next` is set and at the end when it is not.
pub add_tracks-refines :
    (cat : Catalog) (who : Requester) (id cur : ℕ) (ts : List ℕ) (next : Bool) (rows : List Item)
    → Numbered 0 rows
    → (next ≡ true → cur < length rows)
    → ((unknown_track cat ts ≡ true) × (add_tracks cat who id cur ts next rows ≡ err foreign_key))
      ⊎ ((unknown_track cat ts ≡ false)
          × ((out : List Item) × (add_tracks cat who id cur ts next rows ≡ ok out)
              × Numbered 0 out
              × (tracks out ≡ added cur ts next (tracks rows))))
add_tracks-refines cat who id cur ts next rows h l = elim (Bool-cases (unknown_track cat ts)) [
  | inl u ↦ inl (u, add_tracks-unknown cat who id cur ts next rows u)
  | inr u ↦
      let (out, e) = add_tracks-known cat who id cur ts next rows u in
      let (numbered, listed) = add_tracks_sound cat who id cur ts next rows h l e in
      inr (u, (out, e, numbered, listed))
]
