-- ===== src/Playback/Next/Smart.antt =====
-- The random and smart shuffles (internal/playback/shuffle.go) do not play the same row twice in a
-- row, and the smart one changes the artist when it can.
use native.Mathlib.Nat.{mod-eq_of_lt, mod-eq-sub-mod}
use native.Mathlib.Decide.{dec_lt}
use sound_dock.Base.{
  ℕ, zero, suc, ◌+◌, ◌-◌, ◌%◌, ◌<◌, ◌≡◌, refl, ◌≢◌, Bool, true, false, some, List, [], ◌∷◌, length,
  get_elem?, arith, if◌then◌else◌, ◌==◌, All, subst,
}
use sound_dock.Playback.Session.{RepeatMode}
use sound_dock.Playback.Next.{
  QueueMeta, next_random, next_smart, candidates, pick, or_else, at, same_artist,
}
use sound_dock.Playback.Next.Bounds.{InRange, All-at}

rotate-ne : (n idx r : ℕ) → idx < n → r < n - 1 → (idx + (r + 1)) % n ≢ idx
rotate-ne n idx r l h e = elim (dec_lt (idx + (r + 1)) n) [
  | yes p ↦ absurd (omega (arith, mod-eq_of_lt p))
  | no p ↦ absurd (
      omega (
        arith,
        mod-eq-sub-mod {n = idx + (r + 1)} {m = n} (omega arith),
        mod-eq_of_lt {n = idx + (r + 1) - n} {m = n} (omega arith),
      ))
]

-- Random shuffle with at least two rows never answers the current index, and never stops.
pub next_random-ne :
    (n idx : ℕ) (repeat : RepeatMode) (rnd : ℕ → ℕ)
    → InRange rnd
    → 1 < n
    → idx < n
    → ((next_random n idx repeat rnd).index ≢ idx) × ((next_random n idx repeat rnd).stop ≡ false)
unfolding next_random
next_random-ne n idx repeat rnd r p l =
    (ground (arith, rotate-ne n idx (rnd (n - 1)) l (r (n - 1) (omega arith))), ground arith)

-- What a candidate of the smart shuffle is: another row, of the wanted relation to the artist.
-- `i` is the index of the first row of `xs`.
abbrev IsCandidate : Bool → QueueMeta → ℕ → ℕ → List QueueMeta → ℕ → Type 0
IsCandidate same cur idx i xs j =
    (j ≢ idx)
    × ((k : ℕ) × (j ≡ i + k)
        × ((x : QueueMeta) × (get_elem? xs k ≡ some x) × (same_artist cur x ≡ same)))

All-map : (P Q : ℕ → Type 0) → ((j : ℕ) → P j → Q j) → (xs : List ℕ) → All P xs → All Q xs
All-map P Q f [] h = tt
All-map P Q f (x ∷ xs) h = (f x h.0, All-map P Q f xs h.1)

IsCandidate-tail :
    (same : Bool) (cur : QueueMeta) (idx i : ℕ) (x : QueueMeta) (xs : List QueueMeta) (j : ℕ)
    → IsCandidate same cur idx (suc i) xs j
    → IsCandidate same cur idx i (x ∷ xs) j
IsCandidate-tail same cur idx i x xs j (ne, (k, e, found)) = (ne, (suc k, omega arith, found))

choose-All :
    (P : ℕ → Type 0) (hit b same : Bool) (i : ℕ) (rest : List ℕ)
    → All P rest
    → (hit ≡ false → b ≡ same → P i)
    → All P (
        if hit
        then rest
        else (if b then (if same then i ∷ rest else rest) else (if same then rest else i ∷ rest)))
choose-All P true b same i rest h f = h
choose-All P false true true i rest h f = (f refl refl, h)
choose-All P false true false i rest h f = h
choose-All P false false true i rest h f = h
choose-All P false false false i rest h f = (f refl refl, h)

candidates-All :
    (same : Bool) (cur : QueueMeta) (idx i : ℕ) (xs : List QueueMeta)
    → All (IsCandidate same cur idx i xs) (candidates same cur idx i xs)
unfolding candidates
candidates-All same cur idx i [] = tt
candidates-All same cur idx i (x ∷ xs) =
    choose-All (IsCandidate same cur idx i (x ∷ xs)) (i == idx) (same_artist cur x) same i
      (candidates same cur idx (suc i) xs)
      (All-map (IsCandidate same cur idx (suc i) xs) (IsCandidate same cur idx i (x ∷ xs))
        (IsCandidate-tail same cur idx i x xs) (candidates same cur idx (suc i) xs)
        (candidates-All same cur idx (suc i) xs))
      (λ miss e. (ground arith, (0, omega arith, (x, refl, e))))

-- With no candidate of the other kind, every other row is of this kind.
candidates-nil :
    (cur : QueueMeta) (idx i k : ℕ) (xs : List QueueMeta) (x : QueueMeta)
    → candidates false cur idx i xs ≡ []
    → i + k ≢ idx
    → get_elem? xs k ≡ some x
    → same_artist cur x ≡ true
unfolding candidates
candidates-nil cur idx i k [] x h n e = ground arith
candidates-nil cur idx i zero (y ∷ xs) x h n e = ground arith
candidates-nil cur idx i (suc k) (y ∷ xs) x h n e =
    candidates-nil cur idx (suc i) k xs x (ground arith) (λ q. n (omega arith)) e

-- A row of another artist than the current one, or any other row if the current one has no artist.
abbrev pub IsOther : QueueMeta → ℕ → List QueueMeta → ℕ → Type 0
IsOther cur idx items k =
    (k ≢ idx) × ((x : QueueMeta) × (get_elem? items k ≡ some x) × (same_artist cur x ≡ false))

IsCandidate-IsOther :
    (cur : QueueMeta) (idx : ℕ) (items : List QueueMeta) (j : ℕ)
    → IsCandidate false cur idx 0 items j
    → IsOther cur idx items j
IsCandidate-IsOther cur idx items j (ne, (k, e, found)) = (
  ne,
  subst (λ i. (x : QueueMeta) × (get_elem? items i ≡ some x) × (same_artist cur x ≡ false))
      (omega arith) found,
)

pick-IsOther :
    (cur : QueueMeta) (idx : ℕ) (items : List QueueMeta) (rnd : ℕ → ℕ) (pool others : List ℕ)
    → InRange rnd
    → pool ≢ []
    → All (IsCandidate false cur idx 0 items) pool
    → IsOther cur idx items (pick rnd idx (or_else pool others)).index
      × ((pick rnd idx (or_else pool others)).stop ≡ false)
unfolding pick
pick-IsOther cur idx items rnd [] others r n h = absurd (n refl)
pick-IsOther cur idx items rnd (d ∷ ds) others r n h = (
  IsCandidate-IsOther cur idx items (at (d ∷ ds) (rnd (length (d ∷ ds)))) (
      All-at (IsCandidate false cur idx 0 items) (d ∷ ds) (rnd (length (d ∷ ds))) h
        (r (length (d ∷ ds)) (omega arith))),
  refl,
)

-- Smart shuffle: if the queue has another row by a different artist (or any other row, when the
-- current one has no known artist), it plays such a row. It never stops.
pub next_smart-IsOther :
    (items : List QueueMeta) (idx k : ℕ) (rnd : ℕ → ℕ) (cur : QueueMeta)
    → InRange rnd
    → get_elem? items idx ≡ some cur
    → IsOther cur idx items k
    → IsOther cur idx items (next_smart items idx rnd).index
      × ((next_smart items idx rnd).stop ≡ false)
unfolding next_smart
next_smart-IsOther items idx k rnd cur r e (ne, (x, found, other)) =
    rw (e, next_smart)
      (pick-IsOther cur idx items rnd (candidates false cur idx 0 items)
        (candidates true cur idx 0 items) r
        (λ none_left.
          cc (candidates-nil cur idx 0 k items x none_left (λ q. ne (omega arith)) found))
        (candidates-All false cur idx 0 items))
