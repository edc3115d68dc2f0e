-- ===== src/Playback/Next/Bounds.antt =====
-- The chosen index is inside the queue (internal/playback/shuffle.go).
use native.Mathlib.Nat.{mod-lt}
use sound_dock.Base.{
  ℕ, zero, suc, ◌+◌, ◌-◌, ◌<◌, ◌≤◌, ℤ, pos, negsuc, Bool, true, false, List, [], ◌∷◌, length,
  get_elem?, map, arith, Option-cases, inl, inr, All,
}
use sound_dock.Playback.Session.{RepeatMode, ShuffleMode, random, smart, album}
use sound_dock.Playback.Next.{
  QueueMeta, next_index, next_random, next_smart, next_album, shuffled, step_linear, step_back,
  clamp_index, candidates, pick, or_else, at, album_order, album_sort, sort_insert, indexed, intn,
  find_pos,
}

-- What `rand.Intn` promises.
abbrev pub InRange : (ℕ → ℕ) → Type 0
InRange rnd = (n : ℕ) → 0 < n → rnd n < n

pub intn-InRange : (draw : ℕ → ℕ) → InRange draw → InRange (intn draw)
unfolding intn
intn-InRange draw h n p = ground (arith, h n)

pub All-at : (P : ℕ → Type 0) (xs : List ℕ) (k : ℕ) → All P xs → k < length xs → P (at xs k)
All-at P [] k h l = elim l [ ]
All-at P (x ∷ xs) zero h l = h.0
All-at P (x ∷ xs) (suc k) h l = All-at P xs k h.1 (omega arith)

pub candidates-below :
    (same : Bool) (cur : QueueMeta) (idx i n : ℕ) (xs : List QueueMeta)
    → i + length xs ≤ n
    → All (λ j. j < n) (candidates same cur idx i xs)
unfolding candidates
candidates-below same cur idx i n [] h = tt
candidates-below same cur idx i n (x ∷ xs) h =
    ground (arith, candidates-below same cur idx (suc i) n xs)

or_else-All : (P : ℕ → Type 0) (xs ys : List ℕ) → All P xs → All P ys → All P (or_else xs ys)
or_else-All P [] ys h k = k
or_else-All P (x ∷ xs) ys h k = h

pick-lt :
    (rnd : ℕ → ℕ) (idx n : ℕ) (pool : List ℕ)
    → InRange rnd
    → idx < n
    → All (λ j. j < n) pool
    → (pick rnd idx pool).index < n
unfolding pick
pick-lt rnd idx n [] r l h = l
pick-lt rnd idx n (p ∷ ps) r l h =
    All-at (λ j. j < n) (p ∷ ps) (rnd (length (p ∷ ps))) h (r (length (p ∷ ps)) (omega arith))

next_smart-lt :
    (items : List QueueMeta) (idx : ℕ) (rnd : ℕ → ℕ)
    → InRange rnd
    → idx < length items
    → (next_smart items idx rnd).index < length items
unfolding next_smart
next_smart-lt items idx rnd r l = elim (Option-cases (get_elem? items idx)) [
  | inl e ↦ rw (e, next_smart) l
  | inr (cur, e) ↦
      rw (e, next_smart)
        (pick-lt rnd idx (length items)
          (or_else (candidates false cur idx 0 items) (candidates true cur idx 0 items)) r l
          (or_else-All (λ j. j < length items) (candidates false cur idx 0 items)
            (candidates true cur idx 0 items)
            (candidates-below false cur idx 0 (length items) items (omega arith))
            (candidates-below true cur idx 0 (length items) items (omega arith))))
]

next_random-lt :
    (n idx : ℕ) (repeat : RepeatMode) (rnd : ℕ → ℕ)
    → 0 < n
    → (next_random n idx repeat rnd).index < n
unfolding next_random
next_random-lt n idx repeat rnd p = ground (arith, mod-lt (idx + (rnd (n - 1) + 1)) p)

-- The keys of the sorted pairs are the indices of the rows.
abbrev Keyed : ℕ → List (ℕ × QueueMeta) → Type 0
Keyed n [] = Unit {0}
Keyed n (p ∷ ps) = (p.0 < n) × Keyed n ps

indexed-Keyed : (i n : ℕ) (xs : List QueueMeta) → i + length xs ≤ n → Keyed n (indexed i xs)
unfolding indexed
indexed-Keyed i n [] h = tt
indexed-Keyed i n (x ∷ xs) h = (omega arith, indexed-Keyed (suc i) n xs (omega arith))

sort_insert-Keyed :
    (n : ℕ) (x : ℕ × QueueMeta) (ys : List (ℕ × QueueMeta))
    → x.0 < n
    → Keyed n ys
    → Keyed n (sort_insert x ys)
unfolding sort_insert
sort_insert-Keyed n x [] h k = (h, tt)
sort_insert-Keyed n x (y ∷ ys) h k = ground (arith, sort_insert-Keyed n x ys h k.1)

album_sort-Keyed : (n : ℕ) (xs : List (ℕ × QueueMeta)) → Keyed n xs → Keyed n (album_sort xs)
unfolding album_sort
album_sort-Keyed n [] k = tt
album_sort-Keyed n (x ∷ xs) k =
    sort_insert-Keyed n x (album_sort xs) k.0 (album_sort-Keyed n xs k.1)

keys-below : (n : ℕ) (xs : List (ℕ × QueueMeta)) → Keyed n xs → All (λ j. j < n) (map (λ p. p.0) xs)
keys-below n [] k = tt
keys-below n (x ∷ xs) k = (k.0, keys-below n xs k.1)

album_order-below : (items : List QueueMeta) → All (λ j. j < length items) (album_order items)
unfolding album_order
album_order-below items = keys-below (length items) (album_sort (indexed 0 items)) (
    album_sort-Keyed (length items) (indexed 0 items)
      (indexed-Keyed 0 (length items) items (omega arith)))

at-lt : (n i : ℕ) (xs : List ℕ) → 0 < n → All (λ j. j < n) xs → at xs i < n
at-lt n i [] p h = p
at-lt n zero (x ∷ xs) p h = h.0
at-lt n (suc i) (x ∷ xs) p h = at-lt n i xs p h.1

next_album-lt :
    (items : List QueueMeta) (idx : ℕ) (repeat : RepeatMode)
    → idx < length items
    → (next_album items idx repeat).index < length items
unfolding next_album
next_album-lt items idx repeat l = ground (
  arith,
  at-lt (length items) 0 (album_order items) (omega arith) (album_order-below items),
  at-lt (length items) (suc (find_pos 0 idx (album_order items))) (album_order items) (omega arith)
      (album_order-below items),
)

shuffled-lt :
    (items : List QueueMeta) (idx : ℕ) (repeat : RepeatMode) (mode : ShuffleMode) (rnd : ℕ → ℕ)
    → InRange rnd
    → idx < length items
    → (shuffled items idx repeat mode rnd).index < length items
unfolding shuffled
shuffled-lt items idx repeat random rnd r l =
    next_random-lt (length items) idx repeat rnd (omega arith)
shuffled-lt items idx repeat smart rnd r l = next_smart-lt items idx rnd r l
shuffled-lt items idx repeat album rnd r l = next_album-lt items idx repeat l

clamp_index-lt : (n : ℕ) (idx : ℤ) → 0 < n → clamp_index n idx < n
unfolding clamp_index
clamp_index-lt n (pos i) h = ground arith
clamp_index-lt n (negsuc i) h = h

step_linear-lt :
    (n idx : ℕ) (delta : ℤ) (repeat : RepeatMode)
    → idx < n
    → (step_linear n idx delta repeat).index < n
unfolding step_linear
step_linear-lt n idx (pos d) repeat l = ground arith
step_linear-lt n idx (negsuc d) repeat l = ground arith

step_back-lt : (n idx : ℕ) (repeat : RepeatMode) → idx < n → (step_back n idx repeat).index < n
unfolding step_back
step_back-lt n idx repeat l = ground arith

-- `nextIndex` on a queue with a row answers an index inside the queue, for every cursor (also one
-- outside the queue), step, repeat mode, shuffle mode and draw, provided that `intn n` is below `n`.
pub next_index-lt :
    (items : List QueueMeta) (idx delta : ℤ) (repeat : RepeatMode) (mode : ShuffleMode)
    (shuffle ended : Bool) (rnd : ℕ → ℕ)
    → InRange rnd
    → 0 < length items
    → (next_index items idx delta repeat mode shuffle ended rnd).index < length items
unfolding next_index
next_index-lt items idx delta repeat mode shuffle ended rnd r l =
    let n = length items in
    let i = clamp_index n idx in
    let inside : i < n = clamp_index-lt n idx l in
    ground (
      arith,
      step_linear-lt n i delta repeat inside,
      step_back-lt n i repeat inside,
      shuffled-lt items i repeat mode rnd r inside,
    )
