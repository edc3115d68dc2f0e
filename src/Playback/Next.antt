-- ===== src/Playback/Next.antt =====
-- internal/playback/shuffle.go: which row of the queue plays after this one, and `Engine.intn`
-- (internal/playback/engine.go). An id is the 128-bit value of a UUID, so the order of two UUID
-- strings is the order of the numbers. `draw n` stands for `rand.Intn(n)`.
pub mod Bounds
pub mod Smart
pub mod Album
use sound_dock.Base.{
  ℕ, zero, suc, ◌+◌, ◌-◌, ◌%◌, ℤ, pos, negsuc, ◌+ℤ◌, is_negative, floor_zero, Bool, true, false,
  not, ◌&&◌, ◌||◌, Option, none, some, List, [], ◌∷◌, map, ltb, leb, ◌==◌, if◌then◌else◌, length,
  get_elem?, keep,
}
use sound_dock.Playback.Session.{
  Item, Track, Catalog, RepeatMode, off, queue, one, ShuffleMode, random, smart, album, nil_uuid,
}

pub record QueueMeta : Type 0 where
  pub position : ℕ
  pub track : ℕ
  pub album : ℕ
  pub artist : ℕ
  pub disc : ℕ
  pub track_no : ℕ

-- A row of `queueMeta`: the LEFT JOIN and its COALESCEs.
pub meta_of : Catalog → Item → QueueMeta
meta_of cat r = elim (cat r.track) [
  | none ↦ record {
    position = r.position;
    track = r.track;
    album = nil_uuid;
    artist = nil_uuid;
    disc = 1;
    track_no = 0;
  }
  | some t ↦ record {
    position = r.position;
    track = r.track;
    album = t.album;
    artist = t.artist;
    disc = t.disc;
    track_no = t.track_no;
  }
]

abbrev pub queue_meta : Catalog → List Item → List QueueMeta
queue_meta cat = map (meta_of cat)

-- `Engine.intn`.
pub intn : (ℕ → ℕ) → ℕ → ℕ
intn draw n = if leb n 1 then 0 else draw n

-- The index to play, and whether to stop.
pub record Next : Type 0 where
  pub index : ℕ
  pub stop : Bool

abbrev pub go : ℕ → Next
go i = record { index = i; stop = false }

abbrev pub halt : ℕ → Next
halt i = record { index = i; stop = true }

abbrev pub is_queue : RepeatMode → Bool
is_queue queue = true
is_queue off = false
is_queue one = false

abbrev is_one : RepeatMode → Bool
is_one one = true
is_one off = false
is_one queue = false

abbrev is_off : RepeatMode → Bool
is_off off = true
is_off queue = false
is_off one = false

-- The comparison of `nextAlbum`.
unfoldable pub album_less : QueueMeta → QueueMeta → Bool
album_less a b =
    if not (a.album == b.album)
    then ltb a.album b.album
    else (if not (a.disc == b.disc)
        then ltb a.disc b.disc
        else (if not (a.track_no == b.track_no)
            then ltb a.track_no b.track_no
            else ltb a.position b.position))

-- A row with its index: what `order[i]` and `items[order[i]]` give.
unfoldable pub indexed : ℕ → List QueueMeta → List (ℕ × QueueMeta)
indexed i [] = []
indexed i (x ∷ xs) = (i, x) ∷ indexed (suc i) xs

-- `sort.SliceStable`: equal rows keep their order.
unfoldable pub sort_insert : ℕ × QueueMeta → List (ℕ × QueueMeta) → List (ℕ × QueueMeta)
unfolding album_less
sort_insert x [] = x ∷ []
sort_insert x (y ∷ ys) = if album_less y.1 x.1 then y ∷ sort_insert x ys else x ∷ y ∷ ys

unfoldable pub album_sort : List (ℕ × QueueMeta) → List (ℕ × QueueMeta)
unfolding sort_insert
album_sort [] = []
album_sort (x ∷ xs) = sort_insert x (album_sort xs)

unfoldable pub album_order : List QueueMeta → List ℕ
unfolding album_sort indexed
album_order items = map (λ p. p.0) (album_sort (indexed 0 items))

-- The place of an index in the order; 0 if it is not there.
pub find_pos : ℕ → ℕ → List ℕ → ℕ
find_pos i idx [] = 0
find_pos i idx (o ∷ order) = let rest = find_pos (suc i) idx order in if o == idx then i else rest

abbrev pub at : List ℕ → ℕ → ℕ
at order i = elim (get_elem? order i) [ none ↦ 0 | some o ↦ o ]

pub next_album : List QueueMeta → ℕ → RepeatMode → Next
unfolding album_order find_pos
next_album items idx repeat =
    let order = album_order items in
    let next = suc (find_pos 0 idx order) in
    if leb (length order) next
    then (if is_queue repeat then go (at order 0) else halt idx)
    else go (at order next)

-- The rows other than the current one, by whether they share its artist.
unfoldable pub same_artist : QueueMeta → QueueMeta → Bool
same_artist cur it = not (cur.artist == nil_uuid) && it.artist == cur.artist

unfoldable pub candidates : Bool → QueueMeta → ℕ → ℕ → List QueueMeta → List ℕ
unfolding same_artist
candidates same cur idx i [] = []
candidates same cur idx i (x ∷ xs) =
    let rest = candidates same cur idx (suc i) xs in
    if i == idx
    then rest
    else (if same_artist cur x
        then (if same then i ∷ rest else rest)
        else (if same then rest else i ∷ rest))

-- `if len(pool) == 0 { return idx }`, and the draw from the pool.
unfoldable pub pick : (ℕ → ℕ) → ℕ → List ℕ → Next
pick rnd idx [] = go idx
pick rnd idx (p ∷ ps) = go (at (p ∷ ps) (rnd (length (p ∷ ps))))

abbrev or_else : List ℕ → List ℕ → List ℕ
or_else [] same = same
or_else (d ∷ ds) same = d ∷ ds

unfoldable pub next_smart : List QueueMeta → ℕ → (ℕ → ℕ) → Next
unfolding candidates pick
next_smart items idx rnd = elim (get_elem? items idx) [
  | none ↦ go idx
  | some cur ↦
      pick rnd idx (or_else (candidates false cur idx 0 items) (candidates true cur idx 0 items))
]

pub next_random : ℕ → ℕ → RepeatMode → (ℕ → ℕ) → Next
next_random n idx repeat rnd =
    if n == 1 then (if is_off repeat then halt 0 else go 0) else go ((idx + (rnd (n - 1) + 1)) % n)

-- One row back, from the start to the end under `queue`.
pub step_back : ℕ → ℕ → RepeatMode → Next
step_back n idx repeat =
    if idx == 0 then (if is_queue repeat then go (n - 1) else go 0) else go (idx - 1)

-- The queue in its own order.
pub step_linear : ℕ → ℕ → ℤ → RepeatMode → Next
step_linear n idx delta repeat =
    let next = pos idx +ℤ delta in
    if not (is_negative next) && leb n (floor_zero next)
    then (if is_queue repeat then go 0 else halt idx)
    else (if is_negative next
        then (if is_queue repeat then go (n - 1) else go 0)
        else go (floor_zero next))

pub shuffled : List QueueMeta → ℕ → RepeatMode → ShuffleMode → (ℕ → ℕ) → Next
unfolding next_album next_smart next_random
shuffled items idx repeat album rnd = next_album items idx repeat
shuffled items idx repeat smart rnd = next_smart items idx rnd
shuffled items idx repeat random rnd = next_random (length items) idx repeat rnd

-- `if idx < 0 || idx >= n { idx = 0 }`.
pub clamp_index : ℕ → ℤ → ℕ
clamp_index n idx = if is_negative idx || leb n (floor_zero idx) then 0 else floor_zero idx

abbrev is_forward : ℤ → Bool
is_forward (pos zero) = false
is_forward (pos (suc d)) = true
is_forward (negsuc d) = false

pub next_index : List QueueMeta → ℤ → ℤ → RepeatMode → ShuffleMode → Bool → Bool → (ℕ → ℕ) → Next
next_index items idx delta repeat mode shuffle ended rnd =
    let n = length items in
    let i = clamp_index n idx in
    if n == 0
    then halt 0
    else (if is_one repeat && is_forward delta && ended
        then go i
        else (if not shuffle
            then step_linear n i delta repeat
            else (if is_negative delta
                then step_back n i repeat
                else shuffled items i repeat mode rnd)))
