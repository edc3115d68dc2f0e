-- ===== src/Playback/Undo/Restore.antt =====
-- What an undo restores (`restoreUndo` of internal/playback/control.go).
use sound_dock.Base.{
  ℕ, suc, ◌+◌, ◌≡◌, refl, ap, subst, ◌≢◌, inl, inr, ℤ, pos, Option, none, some, List, [], ◌∷◌, map,
  get_elem?, ok, err, arith, Option-cases, Bool-cases, ◌==◌, eq_ℤ-eq,
}
use sound_dock.Playback.Session.{UndoItem, Item, Session, Dock, undo_stale}
use sound_dock.Playback.Queue.{tracks}
use sound_dock.Playback.Queue.Numbered.{Numbered}
use sound_dock.Playback.Env.{Env}
use sound_dock.Playback.Cursor.{set_cursor}
use sound_dock.Playback.Cursor.WellFormed.{WellFormed, PointsAt}
use sound_dock.Playback.Cursor.Frame.{Frames}
use sound_dock.Playback.Undo.{
  load_row, restored_rows, restored, undo_cursor, index_of, first_track, restore_undo, merge_rows,
}

restored_rows-Numbered :
    (n fresh : ℕ) (used : List ℕ) (its : List UndoItem)
    → Numbered n (restored_rows n fresh used its).0
unfolding restored_rows
restored_rows-Numbered n fresh used [] = tt
restored_rows-Numbered n fresh used (it ∷ its) = (refl, restored_rows-Numbered (suc n) _ _ its)

pub tracks-restored_rows :
    (n fresh : ℕ) (used : List ℕ) (its : List UndoItem)
    → tracks (restored_rows n fresh used its).0 ≡ map (λ it. it.track) its
unfolding restored_rows
tracks-restored_rows n fresh used [] = refl
tracks-restored_rows n fresh used (it ∷ its) =
    ap (◌∷◌ it.track) (tracks-restored_rows (suc n) _ _ its)

index_of-found :
    (i t j : ℕ) (rows : List Item)
    → index_of i t rows ≡ some j
    → (k : ℕ) × (j ≡ i + k) × (get_elem? (tracks rows) k ≡ some t)
unfolding index_of
index_of-found i t j [] e = cc
index_of-found i t j (r ∷ rs) e = elim (Bool-cases (r.track == t)) [
  | inl hit ↦ (0, ground arith, ground arith)
  | inr miss ↦
      let (k, at, found) = index_of-found (suc i) t j rs (ground arith) in
      (suc k, omega arith, found)
]

first_row-PointsAt :
    (rows : List Item) (s : Session)
    → PointsAt (set_cursor 0 (first_track rows) s).current_track 0 (tracks rows)
first_row-PointsAt [] s = refl
first_row-PointsAt (r ∷ rs) s = refl

undo_cursor-PointsAt :
    (t : Option ℕ) (rows : List Item) (s : Session)
    → PointsAt
        (undo_cursor t rows s).current_track
        (undo_cursor t rows s).current_index
        (tracks rows)
unfolding undo_cursor
undo_cursor-PointsAt none rows s = first_row-PointsAt rows s
undo_cursor-PointsAt (some t) rows s = elim (Option-cases (index_of 0 t rows)) [
  | inl e ↦ ground (arith, first_row-PointsAt rows s)
  | inr (j, e) ↦
      let (k, at, found) = index_of-found 0 t j rows e in
      let here : get_elem? (tracks rows) j ≡ some t =
        subst (λ i. get_elem? (tracks rows) i ≡ some t) (omega arith) found in
      ground (arith, first_row-PointsAt rows s)
]

pub restored-WellFormed : (desired : List UndoItem) (d : Dock) → WellFormed (restored desired d)
unfolding restored
restored-WellFormed desired d = record {
  numbered = restored_rows-Numbered 0 d.next_uuid [] desired;
  cursor =
      undo_cursor-PointsAt d.session.current_track (restored_rows 0 d.next_uuid [] desired).0
        d.session;
}

-- A successful undo was of the current generation and restored the merge.
pub restore_undo_cases :
    (env : Env) (generation : Option ℤ) (snap : List UndoItem) (d : Dock) {d' : Dock}
    → restore_undo env generation snap d ≡ ok d'
    → (generation ≡ some (pos d.session.revision))
      × (d' ≡ restored (merge_rows (map load_row d.items) snap) d)
unfolding restore_undo
restore_undo_cases env none snap d h = cc
restore_undo_cases env (some g) snap d h = ground (arith, eq_ℤ-eq g (pos d.session.revision))

undo_cursor-revision :
    (t : Option ℕ) (rows : List Item) (s : Session) → (undo_cursor t rows s).revision ≡ s.revision
unfolding undo_cursor
undo_cursor-revision none rows s = refl
undo_cursor-revision (some t) rows s = ground arith

pub restored-Frames : (desired : List UndoItem) (d : Dock) → Frames d (restored desired d)
unfolding restored
restored-Frames desired d = (
  undo_cursor-revision d.session.current_track (restored_rows 0 d.next_uuid [] desired).0 d.session,
  refl,
)

pub restore_undo-stale :
    (env : Env) (generation : Option ℤ) (snap : List UndoItem) (d : Dock) (n : ℕ)
    → generation ≡ some (pos n)
    → n ≢ d.session.revision
    → restore_undo env generation snap d ≡ err undo_stale
unfolding restore_undo
restore_undo-stale env none snap d n e ne = refl
restore_undo-stale env (some g) snap d n e ne =
    ground (arith, eq_ℤ-eq g (pos d.session.revision), ne)
