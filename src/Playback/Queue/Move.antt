-- ===== src/Playback/Queue/Move.antt =====
-- `reorder` (internal/playback/control.go): the rows and the cursor move together.
use Prim.Native.Nat.add
use mathlib.Core.List.{Perm, perm_middle}
use mathlib.Core.List.Perm
use sound_dock.Base.{
  length-take-of_le, length-drop, ◌∙◌, length-append, take-append-drop, ℕ, zero, suc, ◌+◌, ◌-◌, ◌≤◌,
  ◌<◌, ◌≡◌, refl, List, [], ◌∷◌, ◌++◌, length, arith, get_elem?, take, drop, some, ltb, ◌==◌, none,
  if◌then◌else◌,
}
use sound_dock.Playback.Queue.{move_row, moved_index}

get_elem?-append {ℓ} :
    {A : Type ℓ} (xs ys : List A) (i : ℕ)
    → get_elem? (xs ++ ys) i
      ≡ (if ltb i (length xs) then get_elem? xs i else get_elem? ys (i - length xs))
get_elem?-append [] ys i = ground arith
get_elem?-append (x ∷ xs) ys zero = ground arith
get_elem?-append (x ∷ xs) ys (suc i) = ground (arith, get_elem?-append xs ys i)

get_elem?-take {ℓ} :
    {A : Type ℓ} (n : ℕ) (xs : List A) (i : ℕ)
    → get_elem? (take n xs) i ≡ (if ltb i n then get_elem? xs i else none)
get_elem?-take zero xs i = ground arith
get_elem?-take (suc n) [] i = ground arith
get_elem?-take (suc n) (x ∷ xs) zero = ground arith
get_elem?-take (suc n) (x ∷ xs) (suc i) = ground (arith, get_elem?-take n xs i)

get_elem?-drop {ℓ} :
    {A : Type ℓ} (n : ℕ) (xs : List A) (i : ℕ) → get_elem? (drop n xs) i ≡ get_elem? xs (n + i)
get_elem?-drop zero xs i = rw add.zero
get_elem?-drop (suc n) [] i = refl
get_elem?-drop (suc n) (x ∷ xs) i = rw add.suc (get_elem?-drop n xs i)

module _ {ℓ} {A : Type ℓ} (from : ℕ) (rows : List A) (ok_from : from < length rows) where
  -- `rows[:from] ++ rows[from+1:]`.
  get_elem?-rest :
      (i : ℕ)
      → get_elem? (take from rows ++ drop (suc from) rows) i
        ≡ (if ltb i from then get_elem? rows i else get_elem? rows (suc i))
  get_elem?-rest i = ground (
    arith,
    get_elem?-append (take from rows) (drop (suc from) rows) i,
    length-take-of_le from rows,
    get_elem?-take from rows i,
    get_elem?-drop (suc from) rows (i - from),
    index_eq i,
  )
    where
      index_eq : (j : ℕ) → from ≤ j → suc from + (j - from) ≡ suc j
      index_eq j h = omega arith

-- Insertion at a place inside the list.
get_elem?-insert :
    {A : Type 0} (to : ℕ) (moved : A) (xs : List A) (j : ℕ)
    → to ≤ length xs
    → get_elem? (take to xs ++ moved ∷ drop to xs) j ≡ (
        if j == to then some moved else (if ltb j to then get_elem? xs j else get_elem? xs (j - 1)))
get_elem?-insert zero moved xs zero h = refl
get_elem?-insert zero moved xs (suc j) h = ground arith
get_elem?-insert (suc to) moved [] j h = elim h [ ]
get_elem?-insert (suc to) moved (x ∷ xs) zero h = ground arith
get_elem?-insert (suc to) moved (x ∷ xs) (suc zero) h =
    ground (arith, get_elem?-insert to moved xs zero)
get_elem?-insert (suc to) moved (x ∷ xs) (suc (suc j)) h =
    ground (arith, get_elem?-insert to moved xs (suc j))

length-rest :
    {A : Type 0} (from : ℕ) (rows : List A)
    → from < length rows
    → length (take from rows ++ drop (suc from) rows) + 1 ≡ length rows
length-rest from rows h = omega (
  arith,
  length-append (take from rows) (drop (suc from) rows),
  length-take-of_le from rows,
  length-drop {0} (suc from) rows,
)

-- The moved list, place by place.
get_elem?-move_row :
    {A : Type 0} (from to : ℕ) (moved : A) (rows : List A) (j : ℕ)
    → from < length rows
    → to < length rows
    → get_elem? (move_row from to moved rows) j ≡ (
        if j == to
        then some moved
        else (let i = if ltb j to then j else j - 1 in
            if ltb i from then get_elem? rows i else get_elem? rows (suc i)))
unfolding move_row
get_elem?-move_row from to moved rows j f t =
    get_elem?-insert to moved (take from rows ++ drop (suc from) rows) j
      (omega (arith, length-rest from rows f))
    ∙ ground (arith, get_elem?-rest from rows f j, get_elem?-rest from rows f (j - 1))

-- `reorder` keeps the cursor on its row: the row at the new index after the move is the row that was
-- at the old one, for every pair of positions inside the queue.
pub reorder_keeps_cursor :
    {A : Type 0} (from to cur : ℕ) (moved : A) (rows : List A)
    → from < length rows
    → to < length rows
    → get_elem? rows from ≡ some moved
    → get_elem? (move_row from to moved rows) (moved_index cur from to) ≡ get_elem? rows cur
unfolding moved_index
reorder_keeps_cursor from to cur moved rows f t m =
    get_elem?-move_row from to moved rows (moved_index cur from to) f t ∙ ground arith

split_at {ℓ} :
    {A : Type ℓ} (n : ℕ) (xs : List A) {x : A}
    → get_elem? xs n ≡ some x
    → take n xs ++ x ∷ drop (suc n) xs ≡ xs
split_at n [] h = cc
split_at zero (y ∷ xs) h = ground arith
split_at (suc n) (y ∷ xs) h = rw (split_at n xs h)

-- `reorder` loses no row and makes none up.
pub move_row-perm {ℓ} :
    {A : Type ℓ} (from to : ℕ) (moved : A) (rows : List A)
    → get_elem? rows from ≡ some moved
    → Perm (move_row from to moved rows) rows
unfolding move_row
move_row-perm from to moved rows h =
    let rest = take from rows ++ drop (suc from) rows in
    Perm.trans (perm_middle (take to rest) (drop to rest)) (
      rw (take-append-drop to rest) (
        rw (split_at from rows h) at
          (Perm.symm (perm_middle {a = moved} (take from rows) (drop (suc from) rows)))))
