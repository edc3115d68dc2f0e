-- ===== src/Playback/Queue/Numbered.antt =====
-- The well-formed queue of one session: positions 0, 1, 2, … in order. Control.go keeps
-- playback_queue_items so, and reads `items[i]` and `position=i` as the same row.
use Prim.Native.Nat.add
use sound_dock.Base.{
  ℕ, zero, suc, ◌+◌, ◌≡◌, refl, sym, ◌∙◌, ap, subst, List, [], ◌∷◌, ◌++◌, length, get_elem?, take,
  drop, arith,
}
use sound_dock.Playback.Session.{Item}
use sound_dock.Playback.Queue.{tracks, next_position, renumber, track_at}

abbrev pub Numbered : ℕ → List Item → Type 0
Numbered n [] = Unit {0}
Numbered n (x ∷ xs) = (x.position ≡ n) × Numbered (suc n) xs

pub renumber-Numbered : (n : ℕ) (xs : List Item) → Numbered n (renumber n xs)
unfolding renumber
renumber-Numbered n [] = tt
renumber-Numbered n (x ∷ xs) = (refl, renumber-Numbered (suc n) xs)

pub tracks-renumber : (n : ℕ) (xs : List Item) → tracks (renumber n xs) ≡ tracks xs
unfolding renumber
tracks-renumber n [] = refl
tracks-renumber n (x ∷ xs) = ap (◌∷◌ x.track) (tracks-renumber (suc n) xs)

pub renumber_id : (n : ℕ) (xs : List Item) → Numbered n xs → renumber n xs ≡ xs
unfolding renumber
renumber_id n [] h = refl
renumber_id n (x ∷ xs) h = ground (arith, renumber_id (suc n) xs)

pub length-renumber : (n : ℕ) (xs : List Item) → length (renumber n xs) ≡ length xs
unfolding renumber
length-renumber n [] = refl
length-renumber n (x ∷ xs) = ap suc (length-renumber (suc n) xs)

pub Numbered-cast : {m n : ℕ} (xs : List Item) → m ≡ n → Numbered m xs → Numbered n xs
Numbered-cast xs e h = subst (λ k. Numbered k xs) e h

pub Numbered-append :
    (n : ℕ) (xs ys : List Item)
    → Numbered n xs
    → Numbered (n + length xs) ys
    → Numbered n (xs ++ ys)
Numbered-append n [] ys h k = Numbered-cast ys (omega arith) k
Numbered-append n (x ∷ xs) ys h k =
    (h.0, Numbered-append (suc n) xs ys h.1 (Numbered-cast ys (omega arith) k))

pub Numbered-take : (n k : ℕ) (xs : List Item) → Numbered n xs → Numbered n (take k xs)
Numbered-take n zero xs h = tt
Numbered-take n (suc k) [] h = tt
Numbered-take n (suc k) (x ∷ xs) h = (h.0, Numbered-take (suc n) k xs h.1)

pub Numbered-drop : (n k : ℕ) (xs : List Item) → Numbered n xs → Numbered (n + k) (drop k xs)
Numbered-drop n zero xs h = Numbered-cast xs (omega arith) h
Numbered-drop n (suc k) [] h = tt
Numbered-drop n (suc k) (x ∷ xs) h =
    Numbered-cast (drop k xs) (omega arith) (Numbered-drop (suc n) k xs h.1)

next_position-cons :
    (n : ℕ) (x : Item) (xs : List Item)
    → Numbered n (x ∷ xs)
    → next_position (x ∷ xs) ≡ n + length (x ∷ xs)
unfolding next_position
next_position-cons n x [] h = ground arith
next_position-cons n x (y ∷ xs) h = ground (arith, next_position-cons (suc n) y xs)

pub next_position-Numbered : (xs : List Item) → Numbered 0 xs → next_position xs ≡ length xs
unfolding next_position
next_position-Numbered [] h = refl
next_position-Numbered (x ∷ xs) h = omega (arith, next_position-cons 0 x xs h)

-- Under a well-formed queue the row of a position is the row of that index.
pub track_at-Numbered :
    (n : ℕ) (xs : List Item) (i : ℕ) → Numbered n xs → track_at (n + i) xs ≡ get_elem? (tracks xs) i
unfolding track_at
track_at-Numbered n [] i h = refl
track_at-Numbered n (x ∷ xs) zero h = ground arith
track_at-Numbered n (x ∷ xs) (suc i) h = ground (arith, track_at-Numbered (suc n) xs i)

pub track_at-eq : (xs : List Item) (i : ℕ) → Numbered 0 xs → track_at i xs ≡ get_elem? (tracks xs) i
track_at-eq xs i h = ap (λ j. track_at j xs) (sym (add.zero i)) ∙ track_at-Numbered 0 xs i h
