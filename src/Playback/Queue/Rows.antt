-- ===== src/Playback/Queue/Rows.antt =====
-- Single INSERTs and the shift before them (internal/playback/engine.go).
use sound_dock.Base.{
  ℕ, zero, suc, ◌+◌, ◌≤◌, ◌<◌, ◌≡◌, refl, ap, ◌∙◌, List, [], ◌∷◌, ◌++◌, length, take, drop, arith,
  ok, ◌>>=◌, length-append,
}
use mathlib.Core.List.{append_assoc}
use sound_dock.Playback.Session.{Item, Catalog, Requester, Try}
use sound_dock.Playback.Queue.{
  tracks, new_item, insert_row, insert_track, insert_tracks, shift_after,
}
use sound_dock.Playback.Queue.Numbered.{Numbered, Numbered-cast, Numbered-append}

-- Rows whose positions all lie above `p`, told by the first.
abbrev pub Above : ℕ → List Item → Type 0
Above p [] = Unit {0}
Above p (x ∷ xs) = p < x.position

pub insert_row-between :
    (n : ℕ) (front : List Item) (r : Item) (back : List Item)
    → Numbered n front
    → r.position ≡ n + length front
    → Above r.position back
    → insert_row r (front ++ back) ≡ front ++ r ∷ back
unfolding insert_row
insert_row-between n [] r [] h e a = refl
insert_row-between n [] r (x ∷ back) h e a = ground arith
insert_row-between n (y ∷ front) r back h e a =
    ground (arith, insert_row-between (suc n) front r back h.1)

-- The rows that `insert_tracks` makes.
pub new_rows : Requester → ℕ → ℕ → List ℕ → List Item
new_rows who id position [] = []
new_rows who id position (t ∷ ts) =
    new_item who id position t ∷ new_rows who (suc id) (suc position) ts

pub new_rows-Numbered :
    (who : Requester) (id n : ℕ) (ts : List ℕ) → Numbered n (new_rows who id n ts)
unfolding new_rows
new_rows-Numbered who id n [] = tt
new_rows-Numbered who id n (t ∷ ts) = (refl, new_rows-Numbered who (suc id) (suc n) ts)

pub tracks-new_rows :
    (who : Requester) (id n : ℕ) (ts : List ℕ) → tracks (new_rows who id n ts) ≡ ts
unfolding new_rows
tracks-new_rows who id n [] = refl
tracks-new_rows who id n (t ∷ ts) = ap (◌∷◌ t) (tracks-new_rows who (suc id) (suc n) ts)

pub length-new_rows :
    (who : Requester) (id n : ℕ) (ts : List ℕ) → length (new_rows who id n ts) ≡ length ts
unfolding new_rows
length-new_rows who id n [] = refl
length-new_rows who id n (t ∷ ts) = ap suc (length-new_rows who (suc id) (suc n) ts)

-- A rest of the queue that leaves room for `m` rows from `p` on.
abbrev pub Clear : ℕ → ℕ → List Item → Type 0
Clear p m [] = Unit {0}
Clear p m (x ∷ xs) = p + m ≤ x.position

pub Clear-suc : (p m : ℕ) (xs : List Item) → Clear p (suc m) xs → Clear (suc p) m xs
Clear-suc p m [] c = tt
Clear-suc p m (x ∷ xs) c = omega arith

pub Clear-Above : (p m : ℕ) (xs : List Item) → Clear p (suc m) xs → Above p xs
Clear-Above p m [] c = tt
Clear-Above p m (x ∷ xs) c = omega arith

pub insert_track-ok :
    (cat : Catalog) (who : Requester) (id p t : ℕ) (rows : List Item)
    (f : List Item → Try (List Item)) {out : List Item}
    → (insert_track cat who id p t rows >>= f) ≡ ok out
    → f (insert_row (new_item who id p t) rows) ≡ ok out
unfolding insert_track
insert_track-ok cat who id p t rows f h = ground arith

pub insert_tracks-between :
    (cat : Catalog) (who : Requester) (id p : ℕ) (ts : List ℕ) (front back : List Item)
    {out : List Item}
    → Numbered 0 front
    → p ≡ length front
    → Clear p (length ts) back
    → insert_tracks cat who id p ts (front ++ back) ≡ ok out
    → out ≡ front ++ (new_rows who id p ts ++ back)
unfolding insert_tracks new_rows
insert_tracks-between cat who id p [] front back h l c e = cc
insert_tracks-between cat who id p (t ∷ ts) front back h l c e =
    insert_tracks-between cat who (suc id) (suc p) ts (front ++ r ∷ []) back
      (Numbered-append 0 front (r ∷ []) h (omega arith, tt))
      (omega (arith, length-append front (r ∷ []), l)) (Clear-suc p (length ts) back c)
      (rw
        (
          append_assoc,
          ← insert_row-between 0 front r back h (omega arith) (Clear-Above p (length ts) back c),
        )
        (insert_track-ok cat who id p t (front ++ back) (insert_tracks cat who (suc id) (suc p) ts)
          e))
    ∙ append_assoc front (r ∷ []) (new_rows who (suc id) (suc p) ts ++ back)
  where
    r : Item
    r = new_item who id p t

pub shift_after-Numbered :
    (n cur m : ℕ) (rows : List Item)
    → Numbered n rows
    → cur < n
    → Numbered (n + m) (shift_after cur m rows)
unfolding shift_after
shift_after-Numbered n cur m [] h l = tt
shift_after-Numbered n cur m (x ∷ xs) h l = (
  ground arith,
  Numbered-cast (shift_after cur m xs) (omega arith)
      (shift_after-Numbered (suc n) cur m xs h.1 (omega arith)),
)

-- The shift leaves the rows up to the current one and moves the rest by `m`.
pub shift_after-split :
    (n c cur m : ℕ) (rows : List Item)
    → Numbered n rows
    → cur ≡ n + c
    → shift_after cur m rows ≡ take (suc c) rows ++ shift_after cur m (drop (suc c) rows)
unfolding shift_after
shift_after-split n c cur m [] h e = refl
shift_after-split n zero cur m (x ∷ xs) h e = ground arith
shift_after-split n (suc c) cur m (x ∷ xs) h e =
    ground (arith, shift_after-split (suc n) c cur m xs h.1)

pub tracks-shift_after :
    (cur m : ℕ) (rows : List Item) → tracks (shift_after cur m rows) ≡ tracks rows
unfolding shift_after
tracks-shift_after cur m [] = refl
tracks-shift_after cur m (x ∷ xs) = ground (arith, tracks-shift_after cur m xs)

pub Numbered-Clear : (p m : ℕ) (rows : List Item) → Numbered (p + m) rows → Clear p m rows
Numbered-Clear p m [] h = tt
Numbered-Clear p m (x ∷ xs) h = omega arith
