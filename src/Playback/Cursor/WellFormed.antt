-- ===== src/Playback/Cursor/WellFormed.antt =====
-- What internal/playback keeps of a session between two requests: the positions of its queue are
-- 0, 1, 2, … and the current track is the one at the current index.
use mathlib.Core.List.{append-nil}
use sound_dock.Base.{
  ℕ, zero, suc, ◌+◌, ◌-◌, ◌<◌, ◌≡◌, refl, sym, ◌∙◌, subst, ◌⊎◌, inl, inr, ℤ, pos, negsuc, Bool,
  true, false, Option, none, some, List, [], ◌∷◌, length, get_elem?, keep, ok, >>=-eq-ok, arith,
  Option-cases, Bool-cases, ltb, leb, ◌==◌, floor_zero, eq_ℤ, if◌then◌else◌,
}
use sound_dock.Playback.Session.{Item, Dock}
use sound_dock.Playback.Queue.{
  tracks, insert_tracks, delete_at, close_gap, renumber, delete_tracks, move_row, moved_index,
}
use sound_dock.Playback.Queue.Numbered.{
  Numbered, renumber-Numbered, tracks-renumber, track_at-Numbered,
}
use sound_dock.Playback.Queue.Insert.{insert_tracks-lem}
use sound_dock.Playback.Queue.Remove.{remove_row}
use sound_dock.Playback.Next.{Next, next_index, queue_meta, intn}
use sound_dock.Playback.Env.{Env}
use sound_dock.Playback.Cursor.{
  replace_queue, clear_keep_current, only_current, move, move_to, remove_at, settle_cursor, reorder,
  start_queue, set_cursor, reorder_rows, drop_tracks, keep_or_fall_back, fall_back, position_of,
  kept_track,
}

-- No current track goes with index 0.
abbrev pub PointsAt : Option ℕ → ℕ → List ℕ → Type 0
PointsAt none idx ts = idx ≡ 0
PointsAt (some t) idx ts = get_elem? ts idx ≡ some t

pub record WellFormed (d : Dock) : Type 0 where
  pub numbered : Numbered 0 d.items
  pub cursor : PointsAt d.session.current_track d.session.current_index (tracks d.items)

insert_all :
    (env : Env) (id : ℕ) (ts : List ℕ) (rows : List Item)
    → insert_tracks env.catalog env.who id 0 ts [] ≡ ok rows
    → Numbered 0 rows × (tracks rows ≡ ts)
insert_all env id ts rows h =
    let (numbered, listed) = insert_tracks-lem env.catalog env.who id 0 ts [] [] tt refl tt h in
    (numbered, listed ∙ append-nil ts)

start_queue-WellFormed :
    (env : Env) (ts : List ℕ) (start : ℤ) (rows : List Item) (d : Dock)
    → Numbered 0 rows
    → tracks rows ≡ ts
    → WellFormed (start_queue env ts start rows d)
unfolding start_queue
start_queue-WellFormed env ts start rows d h e = ground arith

pub replace_queue-WellFormed :
    (env : Env) (ts : List ℕ) (start : ℤ) (d : Dock) {d' : Dock}
    → replace_queue env ts start d ≡ ok d'
    → WellFormed d'
unfolding replace_queue
replace_queue-WellFormed env ts start d h =
    let (rows, e, same) = >>=-eq-ok (insert_tracks env.catalog env.who d.next_uuid 0 ts []) _ h in
    let (numbered, listed) = insert_all env d.next_uuid ts rows e in
    subst WellFormed (cc) (start_queue-WellFormed env ts start rows d numbered listed)

-- The rows of one position: at most one in a well-formed queue.
keep-above :
    (n here : ℕ) (rows : List Item)
    → Numbered n rows
    → here < n
    → keep (λ r. r.position == here) rows ≡ []
keep-above n here [] h l = refl
keep-above n here (x ∷ xs) h l = ground (arith, keep-above (suc n) here xs h.1)

keep-at :
    (n i here : ℕ) (rows : List Item) (t : ℕ)
    → Numbered n rows
    → here ≡ n + i
    → get_elem? (tracks rows) i ≡ some t
    → (r : Item) × (keep (λ r. r.position == here) rows ≡ r ∷ []) × (r.track ≡ t)
keep-at n i here [] t h e g = cc
keep-at n zero here (x ∷ xs) t h e g =
    (x, ground (arith, keep-above (suc n) here xs h.1), ground arith)
keep-at n (suc i) here (x ∷ xs) t h e g =
    let (r, kept, same) = keep-at (suc n) i here xs t h.1 (omega arith) g in (r, ground arith, same)

only_current-WellFormed :
    (t : ℕ) (d : Dock)
    → Numbered 0 d.items
    → get_elem? (tracks d.items) d.session.current_index ≡ some t
    → WellFormed (only_current d.session.current_index t d)
unfolding only_current
only_current-WellFormed t d h g =
    let (r, kept, same) =
      keep-at 0 d.session.current_index d.session.current_index d.items t h (omega arith) g in
    ground arith

pub clear_keep_current-WellFormed : (d : Dock) → WellFormed d → WellFormed (clear_keep_current d)
unfolding clear_keep_current
clear_keep_current-WellFormed d w = elim (Option-cases d.session.current_track) [
  | inl e ↦ rw (e, clear_keep_current) (record { numbered = tt; cursor = refl })
  | inr (t, e) ↦
      let g : get_elem? (tracks d.items) d.session.current_index ≡ some t = ground arith in
      ground (arith, only_current-WellFormed t d w.numbered g)
]

module _ (env : Env) where
  move_to-WellFormed : (n : Next) (d : Dock) → WellFormed d → WellFormed (move_to env n d).0
  unfolding move_to
  move_to-WellFormed n d w = ground arith

  pub move-WellFormed :
      (delta : ℤ) (ended : Bool) (d : Dock) → WellFormed d → WellFormed (move env delta ended d).0
  unfolding move
  move-WellFormed delta ended d w =
      let n =
        next_index (queue_meta env.catalog d.items) (pos d.session.current_index) delta
          d.session.modes.repeat_mode d.session.modes.shuffle_mode d.session.modes.shuffle ended
          (intn env.draw) in
      ground (arith, move_to-WellFormed n d w)

  settle_cursor-WellFormed :
      (p cur : ℕ) (d : Dock) → Numbered 0 d.items → WellFormed (settle_cursor env p cur d)
  unfolding settle_cursor
  settle_cursor-WellFormed p cur d h =
      let idx = if ltb p cur then cur - 1 else cur in
      ground (arith, track_at-Numbered 0 d.items idx h)

  pub remove_at-WellFormed : (p : ℤ) (d : Dock) → WellFormed d → WellFormed (remove_at env p d).0
  unfolding remove_at
  remove_at-WellFormed (negsuc n) d w = w
  remove_at-WellFormed (pos p) d w =
      let d' = record d { items = close_gap p (delete_at p d.items) } in
      ground (
        arith,
        settle_cursor-WellFormed p d.session.current_index d'
            (remove_row 0 p p d.items w.numbered (omega arith)).0,
      )

reordered-WellFormed :
    (rows : List Item) (idx t : ℕ) (d : Dock)
    → get_elem? (tracks rows) idx ≡ some t
    → WellFormed (record d { items = renumber 0 rows; session = set_cursor idx (some t) d.session })
reordered-WellFormed rows idx t d g = record {
  numbered = renumber-Numbered 0 rows;
  cursor = rw (tracks-renumber 0 rows) g;
}

reorder_rows-WellFormed :
    (from to : ℕ) (moved : Item) (d : Dock) {d' : Dock}
    → reorder_rows from to moved d ≡ ok d'
    → WellFormed d'
unfolding reorder_rows
reorder_rows-WellFormed from to moved d h =
    let rows = move_row from to moved d.items in
    let idx = moved_index d.session.current_index from to in
    elim (Option-cases (get_elem? (tracks rows) idx)) [
      | inl e ↦ absurd (ground arith)
      | inr (t, e) ↦ subst WellFormed (ground arith) (reordered-WellFormed rows idx t d e)
    ]

-- A successful `reorder` has changed nothing or moved a row.
pub reorder_cases :
    (from to : ℤ) (d : Dock) {r : Dock × Bool}
    → reorder from to d ≡ ok r
    → (r ≡ (d, false))
      ⊎ ((moved : Item) × (get_elem? d.items (floor_zero from) ≡ some moved)
          × (reorder_rows (floor_zero from) (floor_zero to) moved d ≡ ok r.0)
          × (r.1 ≡ true))
unfolding reorder
reorder_cases from to d {r} h = elim (Option-cases (get_elem? d.items (floor_zero from))) [
  | inl e ↦ inl (ground arith)
  | inr (moved, e) ↦ elim (Bool-cases (eq_ℤ from to)) [
    | inl same ↦ inl (ground arith)
    | inr differ ↦
        let (d', moved_it, done) =
          >>=-eq-ok (reorder_rows (floor_zero from) (floor_zero to) moved d)
            (λ (x : Dock). ok (x, true)) {out = r} (ground arith) in
        inr (moved, e, ground arith, ground arith)
  ]
]

pub reorder-WellFormed :
    (from to : ℤ) (d : Dock) {r : Dock × Bool}
    → WellFormed d
    → reorder from to d ≡ ok r
    → WellFormed r.0
reorder-WellFormed from to d w h = elim (reorder_cases from to d h) [
  | inl same ↦ subst (λ p. WellFormed p.0) (sym same) w
  | inr (moved, e, moved_it, done) ↦
      reorder_rows-WellFormed (floor_zero from) (floor_zero to) moved d moved_it
]

position_of-Numbered :
    (n t p : ℕ) (rows : List Item)
    → Numbered n rows
    → position_of t rows ≡ some p
    → (i : ℕ) × (p ≡ n + i) × (get_elem? (tracks rows) i ≡ some t)
unfolding position_of
position_of-Numbered n t p [] h e = cc
position_of-Numbered n t p (x ∷ xs) h e = elim (Bool-cases (x.track == t)) [
  | inl hit ↦ (0, ground arith, ground arith)
  | inr miss ↦
      let (i, at, found) = position_of-Numbered (suc n) t p xs h.1 (ground arith) in
      (suc i, omega arith, found)
]

fall_back-WellFormed : (env : Env) (d : Dock) → Numbered 0 d.items → WellFormed (fall_back env d)
unfolding fall_back
fall_back-WellFormed env d h =
    let idx =
      if leb (length d.items) d.session.current_index
      then length d.items - 1
      else d.session.current_index in
    ground (arith, track_at-Numbered 0 d.items idx h)

keep_or_fall_back-WellFormed :
    (env : Env) (kept : Option ℕ) (d : Dock)
    → Numbered 0 d.items
    → WellFormed (keep_or_fall_back env kept d)
unfolding keep_or_fall_back
keep_or_fall_back-WellFormed env none d h = fall_back-WellFormed env d h
keep_or_fall_back-WellFormed env (some t) d h = elim (Option-cases (position_of t d.items)) [
  | inl e ↦ rw (e, keep_or_fall_back) (fall_back-WellFormed env d h)
  | inr (p, e) ↦
      let (i, at, found) = position_of-Numbered 0 t p d.items h e in
      let here : get_elem? (tracks d.items) p ≡ some t =
        subst (λ k. get_elem? (tracks d.items) k ≡ some t) (omega arith) found in
      rw (e, keep_or_fall_back) (record { numbered = h; cursor = here })
]

drop_rows-WellFormed :
    (env : Env) (gone : List ℕ) (d : Dock) (rows : List Item)
    → renumber 0 (delete_tracks gone d.items) ≡ rows
    → WellFormed (drop_tracks env gone d)
unfolding drop_tracks
drop_rows-WellFormed env gone d [] e = rw (e, drop_tracks) (record { numbered = tt; cursor = refl })
drop_rows-WellFormed env gone d (r ∷ rs) e =
    rw (e, drop_tracks)
      (keep_or_fall_back-WellFormed env (kept_track gone d.session.current_track)
        (record d { items = r ∷ rs })
        (subst (Numbered 0) e (renumber-Numbered 0 (delete_tracks gone d.items))))

-- Dropping tracks from a session leaves it well formed, whatever it was.
pub drop_tracks-WellFormed :
    (env : Env) (gone : List ℕ) (d : Dock) → WellFormed (drop_tracks env gone d)
drop_tracks-WellFormed env gone d =
    drop_rows-WellFormed env gone d (renumber 0 (delete_tracks gone d.items)) refl
