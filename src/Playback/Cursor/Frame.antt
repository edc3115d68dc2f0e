-- ===== src/Playback/Cursor/Frame.antt =====
-- What the cursor operations of internal/playback leave alone: the state revision, which their
-- callers bump, and the receipts.
use sound_dock.Base.{
  ℕ, ◌≡◌, refl, inl, inr, ℤ, pos, negsuc, Bool, List, [], ok, arith, >>=-eq-ok, Option-cases, subst,
  sym, floor_zero,
}
use sound_dock.Playback.Session.{Item, Dock}
use sound_dock.Playback.Queue.{insert_tracks, delete_at, close_gap}
use sound_dock.Playback.Next.{Next, next_index, queue_meta, intn}
use sound_dock.Playback.Env.{Env}
use sound_dock.Playback.Cursor.{
  replace_queue, start_queue, clear_keep_current, only_current, move, move_to, remove_at,
  settle_cursor, reorder, reorder_rows,
}
use sound_dock.Playback.Cursor.WellFormed.{reorder_cases}

-- The revision and the receipts of `e` are those of `d`.
abbrev pub Frames : Dock → Dock → Type 0
Frames d e = (e.session.revision ≡ d.session.revision) × (e.receipts ≡ d.receipts)

start_queue-Frames :
    (env : Env) (ts : List ℕ) (start : ℤ) (rows : List Item) (d : Dock)
    → Frames d (start_queue env ts start rows d)
unfolding start_queue
start_queue-Frames env ts start rows d = ground arith

pub replace_queue-Frames :
    (env : Env) (ts : List ℕ) (start : ℤ) (d : Dock) {e : Dock}
    → replace_queue env ts start d ≡ ok e
    → Frames d e
unfolding replace_queue
replace_queue-Frames env ts start d h =
    let (rows, _, same) = >>=-eq-ok (insert_tracks env.catalog env.who d.next_uuid 0 ts []) _ h in
    ground (arith, start_queue-Frames env ts start rows d)

only_current-Frames : (idx t : ℕ) (d : Dock) → Frames d (only_current idx t d)
unfolding only_current
only_current-Frames idx t d = ground arith

pub clear_keep_current-Frames : (d : Dock) → Frames d (clear_keep_current d)
unfolding clear_keep_current
clear_keep_current-Frames d = elim (Option-cases d.session.current_track) [
  | inl e ↦ rw (e, clear_keep_current) (refl, refl)
  | inr (t, e) ↦ ground (arith, only_current-Frames d.session.current_index t d)
]

move_to-Frames : (env : Env) (n : Next) (d : Dock) → Frames d (move_to env n d).0
unfolding move_to
move_to-Frames env n d = ground arith

pub move-Frames :
    (env : Env) (delta : ℤ) (ended : Bool) (d : Dock) → Frames d (move env delta ended d).0
unfolding move
move-Frames env delta ended d =
    let n =
      next_index (queue_meta env.catalog d.items) (pos d.session.current_index) delta
        d.session.modes.repeat_mode d.session.modes.shuffle_mode d.session.modes.shuffle ended
        (intn env.draw) in
    ground (arith, move_to-Frames env n d)

settle_cursor-Frames : (env : Env) (p cur : ℕ) (d : Dock) → Frames d (settle_cursor env p cur d)
unfolding settle_cursor
settle_cursor-Frames env p cur d = ground arith

pub remove_at-Frames : (env : Env) (p : ℤ) (d : Dock) → Frames d (remove_at env p d).0
unfolding remove_at
remove_at-Frames env (negsuc n) d = (refl, refl)
remove_at-Frames env (pos p) d =
    let d' = record d { items = close_gap p (delete_at p d.items) } in
    ground (arith, settle_cursor-Frames env p d.session.current_index d')

reorder_rows-Frames :
    (from to : ℕ) (moved : Item) (d : Dock) {e : Dock}
    → reorder_rows from to moved d ≡ ok e
    → Frames d e
unfolding reorder_rows
reorder_rows-Frames from to moved d h = ground arith

pub reorder-Frames :
    (from to : ℤ) (d : Dock) {r : Dock × Bool} → reorder from to d ≡ ok r → Frames d r.0
reorder-Frames from to d h = elim (reorder_cases from to d h) [
  | inl same ↦ subst (λ p. Frames d p.0) (sym same) (refl, refl)
  | inr (moved, e, moved_it, done) ↦
      reorder_rows-Frames (floor_zero from) (floor_zero to) moved d moved_it
]
