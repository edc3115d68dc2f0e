-- ===== src/Playback/Undo/RoundTrip.antt =====
-- Undoing the removal of a row (`removeAt`, then `restoreUndo` of internal/playback/control.go).
use sound_dock.Base.{
  ℕ, zero, suc, ◌+◌, ◌≤◌, ◌<◌, ◌≡◌, refl, sym, ap, ◌∙◌, ◌≢◌, pos, true, false, some, List, [], ◌∷◌,
  ◌++◌, map, length, get_elem?, take, drop, contains, All, ok, arith, is_some, length-map,
  get_elem?-map, get_elem?-some_lt, subst, eq_ℤ-refl,
}
use sound_dock.Playback.Session.{UndoItem, Item, Dock, Catalog, nil_uuid}
use sound_dock.Playback.Queue.{tracks}
use sound_dock.Playback.Queue.Numbered.{Numbered}
use sound_dock.Playback.Queue.Remove.{erase_at}
use sound_dock.Playback.Env.{Env}
use sound_dock.Playback.Cursor.{remove_at}
use sound_dock.Playback.Cursor.WellFormed.{WellFormed}
use sound_dock.Playback.Cursor.Follow.{remove_at_keeps_song}
use sound_dock.Playback.Undo.{
  load_row, restored, restore_undo, merge_rows, merge_loop, unknown_row, sort_snap, sort_put,
  ids_of, insert_at,
}
use sound_dock.Playback.Undo.Restore.{tracks-restored_rows}

abbrev tracks_of : List UndoItem → List ℕ
tracks_of = map λ it. it.track

tracks_of-load_row : (rows : List Item) → tracks_of (map load_row rows) ≡ tracks rows
tracks_of-load_row [] = refl
tracks_of-load_row (r ∷ rs) = ap (◌∷◌ r.track) (tracks_of-load_row rs)

ids_of-load_row :
    (i : ℕ) (rows : List Item)
    → contains (map (λ (r : Item). r.id) rows) i ≡ false
    → contains (ids_of (map load_row rows)) i ≡ false
unfolding ids_of
ids_of-load_row i [] h = refl
ids_of-load_row i (r ∷ rs) h = ground (arith, ids_of-load_row i rs)

tracks_of-insert_at :
    (p : ℕ) (it : UndoItem) (out : List UndoItem)
    → tracks_of (insert_at p it out) ≡ take p (tracks_of out) ++ it.track ∷ drop p (tracks_of out)
tracks_of-insert_at zero it out = refl
tracks_of-insert_at (suc p) it [] = refl
tracks_of-insert_at (suc p) it (x ∷ xs) = ap (◌∷◌ x.track) (tracks_of-insert_at p it xs)

insert-erase_at :
    (p : ℕ) (xs : List ℕ) {x : ℕ}
    → get_elem? xs p ≡ some x
    → take p (erase_at p xs) ++ x ∷ drop p (erase_at p xs) ≡ xs
insert-erase_at p [] e = cc
insert-erase_at zero (y ∷ ys) e = cc
insert-erase_at (suc p) (y ∷ ys) e = ap (◌∷◌ y) (insert-erase_at p ys e)

length-erase_at : (p : ℕ) (xs : List ℕ) → p < length xs → p ≤ length (erase_at p xs)
length-erase_at p [] l = elim l [ ]
length-erase_at zero (x ∷ xs) l = omega arith
length-erase_at (suc p) (x ∷ xs) l = omega (arith, length-erase_at p xs)

known_rows :
    (cat : Catalog) (its : List UndoItem)
    → All (λ t. is_some (cat t) ≡ true) (tracks_of its)
    → unknown_row cat its ≡ false
unfolding unknown_row
known_rows cat [] h = refl
known_rows cat (it ∷ its) h = ground (arith, known_rows cat its)

-- A snapshot of one row that is not in the queue goes in at its position.
merge_one :
    (r : Item) (existing : List UndoItem)
    → r.track ≢ nil_uuid
    → contains (ids_of existing) r.id ≡ false
    → r.position ≤ length existing
    → merge_rows existing (load_row r ∷ []) ≡ insert_at r.position (load_row r) existing
unfolding merge_rows merge_loop sort_snap sort_put
merge_one r existing t new l = ground (arith, t)

position-Numbered :
    (n p : ℕ) (rows : List Item) {r : Item}
    → Numbered n rows
    → get_elem? rows p ≡ some r
    → r.position ≡ n + p
position-Numbered n p [] h e = cc
position-Numbered n zero (x ∷ xs) h e = ground arith
position-Numbered n (suc p) (x ∷ xs) h e = omega (arith, position-Numbered (suc n) p xs h.1 e)

-- An undo of the current generation, whose merge has known tracks only, succeeds.
restore_undo-ok :
    (env : Env) (it : UndoItem) (d : Dock) (desired : List UndoItem)
    → merge_rows (map load_row d.items) (it ∷ []) ≡ desired
    → unknown_row env.catalog desired ≡ false
    → restore_undo env (some (pos d.session.revision)) (it ∷ []) d ≡ ok (restored desired d)
unfolding restore_undo
restore_undo-ok env it d desired m known = rw (eq_ℤ-refl (pos d.session.revision), m, known) refl

restored-tracks :
    (desired : List UndoItem) (d : Dock) → tracks (restored desired d).items ≡ tracks_of desired
unfolding restored
restored-tracks desired d = tracks-restored_rows 0 d.next_uuid [] desired

-- Removing a row and undoing it gives the queue its tracks back in their order. The session is well
-- formed and has a current track, the row is not the current one, its track is not nil and its id is
-- no other row's, the tracks are still in the catalogue, and the queue has not changed between the
-- removal and the undo, which sends the removed row and the generation of then.
pub undo_remove :
    (env env' : Env) (p t : ℕ) (r : Item) (d e : Dock)
    → WellFormed d
    → d.session.current_track ≡ some t
    → p ≢ d.session.current_index
    → get_elem? d.items p ≡ some r
    → r.track ≢ nil_uuid
    → contains (map (λ (x : Item). x.id) e.items) r.id ≡ false
    → All (λ u. is_some (env'.catalog u) ≡ true) (tracks d.items)
    → e.items ≡ (remove_at env (pos p) d).0.items
    → (d' : Dock) × (restore_undo env' (some (pos e.session.revision)) (load_row r ∷ []) e ≡ ok d')
      × (tracks d'.items ≡ tracks d.items)
undo_remove env env' p t r d e w cur other there real new known same =
    let l = get_elem?-some_lt d.items p there in
    let kept = remove_at_keeps_song env p t d w cur l other in
    let erased : tracks e.items ≡ erase_at p (tracks d.items) = ap tracks same ∙ kept.1 in
    let at : r.position ≡ p = omega (arith, position-Numbered 0 p d.items w.numbered there) in
    let short : r.position ≤ length (map load_row e.items) = omega (
      arith,
      length-map e.items load_row,
      length-map e.items (λ (x : Item). x.track),
      length-map d.items (λ (x : Item). x.track),
      ap length erased,
      length-erase_at p (tracks d.items),
    ) in
    let desired = insert_at r.position (load_row r) (map load_row e.items) in
    let merged = merge_one r (map load_row e.items) real (ids_of-load_row r.id e.items new) short in
    let listed : tracks_of desired ≡ tracks d.items =
      tracks_of-insert_at r.position (load_row r) (map load_row e.items)
      ∙ ap (λ ts. take r.position ts ++ r.track ∷ drop r.position ts)
          (tracks_of-load_row e.items ∙ erased)
      ∙ ap
          (λ q.
            take q (erase_at p (tracks d.items)) ++ r.track ∷ drop q (erase_at p (tracks d.items)))
          at
      ∙ insert-erase_at p (tracks d.items)
          (get_elem?-map d.items (λ (x : Item). x.track) p there) in
    (
      restored desired e,
      restore_undo-ok env' (load_row r) e desired merged (
          known_rows env'.catalog desired
            (subst (All (λ u. is_some (env'.catalog u) ≡ true)) (sym listed) known)),
      restored-tracks desired e ∙ listed,
    )
