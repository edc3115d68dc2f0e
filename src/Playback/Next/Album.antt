-- ===== src/Playback/Next/Album.antt =====
-- `nextAlbum` (internal/playback/shuffle.go): the album order is a sorted rearrangement of the queue,
-- and the shuffle walks along it.
use mathlib.Core.List.{
  Perm, Mem, Nodup, Nodup-cons, Nodup-nil, not-mem-nil, mem-cons, mem-cons_self, mem-cons_of_mem,
}
use mathlib.Core.List.Perm
use mathlib.Core.Logic.Or
use native.Mathlib.Bridge.{le_prop}
use Prim.Native.Nat.add
use sound_dock.Base.{
  ℕ, zero, suc, ◌+◌, ◌≤◌, ◌≡◌, refl, sym, ap, subst, true, false, some, List, [], ◌∷◌, length,
  get_elem?, map, arith, Bool-cases, inl, inr, if◌then◌else◌, leb,
}
use sound_dock.Playback.Session.{RepeatMode}
use sound_dock.Playback.Next.{
  QueueMeta, go, halt, is_queue, at, album_less, album_order, album_sort, sort_insert, indexed,
  find_pos, next_album,
}

-- i, i + 1, …, i + n - 1.
abbrev pub indices : ℕ → ℕ → List ℕ
indices i zero = []
indices i (suc n) = i ∷ indices (suc i) n

keys-indexed : (i : ℕ) (xs : List QueueMeta) → map (λ p. p.0) (indexed i xs) ≡ indices i (length xs)
unfolding indexed
keys-indexed i [] = refl
keys-indexed i (x ∷ xs) = ap (◌∷◌ i) (keys-indexed (suc i) xs)

sort_insert-perm :
    (x : ℕ × QueueMeta) (ys : List (ℕ × QueueMeta)) → Perm (sort_insert x ys) (x ∷ ys)
unfolding sort_insert
sort_insert-perm x [] = Perm.refl (x ∷ [])
sort_insert-perm x (y ∷ ys) = elim (Bool-cases (album_less y.1 x.1)) [
  | inl e ↦ rw e (Perm.trans (Perm.cons y (sort_insert-perm x ys)) (Perm.swap x y ys))
  | inr e ↦ rw e (Perm.refl (x ∷ y ∷ ys))
]

album_sort-perm : (xs : List (ℕ × QueueMeta)) → Perm (album_sort xs) xs
unfolding album_sort
album_sort-perm [] = Perm.refl []
album_sort-perm (x ∷ xs) =
    Perm.trans (sort_insert-perm x (album_sort xs)) (Perm.cons x (album_sort-perm xs))

-- The album order lists every index of the queue exactly once.
pub album_order-perm :
    (items : List QueueMeta) → Perm (album_order items) (indices 0 (length items))
unfolding album_order
album_order-perm items =
    rw (keys-indexed 0 items) at (Perm.map (λ p. p.0) (album_sort-perm (indexed 0 items)))

below_indices : (i j n : ℕ) → Mem j (indices i n) → i ≤ j
below_indices i j zero m = absurd (not-mem-nil m)
below_indices i j (suc n) m =
    Or.elim le_prop (mem-cons.0 m) (λ e. omega arith)
      (λ r. omega (arith, below_indices (suc i) j n r))

indices-Nodup : (i n : ℕ) → Nodup (indices i n)
indices-Nodup i zero = Nodup-nil
indices-Nodup i (suc n) =
    Nodup-cons.1
      ((λ m. absurd (omega (arith, below_indices (suc i) i n m))), indices-Nodup (suc i) n)

get_elem?-mem : (xs : List ℕ) (k : ℕ) {x : ℕ} → get_elem? xs k ≡ some x → Mem x xs
get_elem?-mem [] k h = cc
get_elem?-mem (y ∷ xs) zero {x} h =
    let e : y ≡ x = cc in subst (λ z. Mem z (y ∷ xs)) e mem-cons_self
get_elem?-mem (y ∷ xs) (suc k) h = mem-cons_of_mem y (get_elem?-mem xs k h)

find_pos-get_elem? :
    (i k idx : ℕ) (order : List ℕ)
    → Nodup order
    → get_elem? order k ≡ some idx
    → find_pos i idx order ≡ i + k
unfolding find_pos
find_pos-get_elem? i k idx [] d h = cc
find_pos-get_elem? i zero idx (o ∷ order) d h = ground arith
find_pos-get_elem? i (suc k) idx (o ∷ order) d h =
    let missed : ¬ (o ≡ idx) =
      λ e. (Nodup-cons.0 d).0 (subst (λ z. Mem z order) (sym e) (get_elem?-mem order k h)) in
    ground (arith, missed, find_pos-get_elem? (suc i) k idx order (Nodup-cons.0 d).1 h)

-- Sorted: no row comes directly before one that belongs ahead of it.
abbrev pub IsSorted : List (ℕ × QueueMeta) → Type 0
IsSorted [] = Unit {0}
IsSorted (x ∷ []) = Unit {0}
IsSorted (x ∷ y ∷ ys) = (album_less y.1 x.1 ≡ false) × IsSorted (y ∷ ys)

album_less-asym : (a b : QueueMeta) → album_less a b ≡ true → album_less b a ≡ false
unfolding album_less
album_less-asym a b h = ground arith

sort_insert-IsSorted :
    (x : ℕ × QueueMeta) (ys : List (ℕ × QueueMeta)) → IsSorted ys → IsSorted (sort_insert x ys)
unfolding sort_insert
sort_insert-IsSorted x [] h = tt
sort_insert-IsSorted x (y ∷ []) h = ground (arith, album_less-asym y.1 x.1)
sort_insert-IsSorted x (y ∷ z ∷ ys) h =
    ground
      (arith, album_less-asym y.1 x.1, album_less-asym z.1 x.1, sort_insert-IsSorted x (z ∷ ys))

album_sort-IsSorted : (xs : List (ℕ × QueueMeta)) → IsSorted (album_sort xs)
unfolding album_sort
album_sort-IsSorted [] = tt
album_sort-IsSorted (x ∷ xs) = sort_insert-IsSorted x (album_sort xs) (album_sort-IsSorted xs)

-- Album shuffle. The order lists every index of the queue once and is sorted by album, disc, track
-- number and position; from the index at place `k` of it the next index is the one at place `k + 1`;
-- from the last place it is the first of the order under repeat `queue`, and else it stops there.
pub next_album_successor :
    (items : List QueueMeta) (k idx : ℕ) (repeat : RepeatMode)
    → get_elem? (album_order items) k ≡ some idx
    → Perm (album_order items) (indices 0 (length items))
      × IsSorted (album_sort (indexed 0 items))
      × (next_album items idx repeat ≡ (
          if leb (length (album_order items)) (suc k)
          then (if is_queue repeat then go (at (album_order items) 0) else halt idx)
          else go (at (album_order items) (suc k))))
unfolding next_album
next_album_successor items k idx repeat h = (
  album_order-perm items,
  album_sort-IsSorted (indexed 0 items),
  rw
      (
        find_pos-get_elem? 0 k idx (album_order items)
            (Perm.nodup (Perm.symm (album_order-perm items)) (indices-Nodup 0 (length items))) h,
        add.zero,
      )
      refl,
)
