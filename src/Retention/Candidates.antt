-- ===== src/Retention/Candidates.antt =====
-- internal/retention/candidates.go: the tracks whose files may be given up. A track comes with what the
-- joins and subqueries of `candidateSQL` find for it, and a time is a number of seconds.
use sound_dock.Base.{
  ℕ, ◌+◌, ◌*◌, ℤ, pos, ltb_ℤ, floor_zero, Bool, true, false, not, ◌&&◌, ◌||◌, Option, none, some,
  List, [], ◌∷◌, String, ltb, ◌==◌, if◌then◌else◌, keep, take, contains, one_of, is_some,
}
use sound_dock.Retention.Policy.{Policy, Mode, uses_storage, uses_free_space, high_water}

-- What the joins of the statement bring: the file's size, the library, and the plays; and the rows of
-- favourites, playlists, exclusions, queues and sessions that name the track.
pub record Media : Type 0 where
  pub id : ℕ
  pub library : ℕ
  pub size_bytes : ℕ
  pub plays : ℕ
  pub last_played : Option ℕ
  pub last_heard : Option ℕ
  pub created_at : ℕ
  pub acquisition : String
  pub is_unavailable : Bool
  pub is_kept_forever : Bool
  pub is_opted_in : Bool
  pub is_managed : Bool
  pub is_read_only : Bool
  pub is_favourite : Bool
  pub is_on_favourite_album : Bool
  pub is_by_favourite_artist : Bool
  pub is_in_own_playlist : Bool
  pub is_excluded : Bool
  pub is_on_excluded_album : Bool
  pub is_in_excluded_library : Bool
  pub is_by_excluded_artist : Bool
  pub is_in_excluded_playlist : Bool
  pub is_queued : Bool
  pub is_current : Bool

-- GREATEST, which passes over NULL.
abbrev pub greatest : Option ℕ → Option ℕ → Option ℕ
greatest none b = b
greatest (some a) none = some a
greatest (some a) (some b) = if ltb a b then some b else some a

abbrev pub last_activity : Media → Option ℕ
last_activity m = greatest m.last_played m.last_heard

abbrev pub is_unplayed : Media → Bool
is_unplayed m = m.plays == 0 && not (is_some (last_activity m))

abbrev pub or_else : ℕ → Option ℕ → ℕ
or_else d none = d
or_else d (some n) = n

abbrev pub day : ℕ
day = 86400

-- `x < now() - make_interval(days => n)`.
abbrev pub is_older : ℕ → ℤ → ℕ → Bool
is_older now days at = ltb (at + floor_zero days * day) now

-- `age_eligible`: a track that was never played counts from its creation.
abbrev pub age_eligible : ℕ → Policy → Media → Bool
age_eligible now p m =
    ltb_ℤ (pos 0) p.age_days
    && (if is_unplayed m
        then is_older now p.age_days m.created_at
        else is_older now p.age_days (or_else m.created_at (last_activity m)))

-- The library allows it: it opted in, or the file is a download in a managed library.
abbrev pub may_be_given_up : Media → Bool
may_be_given_up m =
    m.is_opted_in
    || (m.is_managed
        && not m.is_read_only
        && one_of ("youtube" ∷ "url" ∷ "scapex" ∷ []) m.acquisition)

abbrev pub is_wanted : Media → Bool
is_wanted m =
    m.is_favourite || m.is_on_favourite_album || m.is_by_favourite_artist || m.is_in_own_playlist

abbrev pub is_exempt : Media → Bool
is_exempt m =
    m.is_excluded || m.is_on_excluded_album || m.is_in_excluded_library || m.is_by_excluded_artist
    || m.is_in_excluded_playlist

abbrev pub played_before : ℕ → ℤ → Option ℕ → Bool
played_before now days none = true
played_before now days (some at) = is_older now days at

-- What `busy` finds: the tracks and the libraries that jobs and open streams name.
pub record Busy : Type 0 where
  pub tracks : List ℕ
  pub libraries : List ℕ

abbrev pub is_zero : ℤ → Bool
is_zero (pos n) = n == 0
is_zero _ = false

-- The WHERE clause of `candidateSQL`.
unfoldable pub is_candidate : ℕ → Policy → Busy → Bool → Media → Bool
is_candidate now p busy require_age m =
    not m.is_unavailable
    && not m.is_kept_forever
    && ltb 0 m.size_bytes
    && may_be_given_up m
    && not (is_wanted m)
    && not (is_exempt m)
    && not (contains busy.tracks m.id)
    && not (contains busy.libraries m.library)
    && not m.is_queued
    && not m.is_current
    && (is_zero p.recent_play_days || played_before now p.recent_play_days (last_activity m))
    && (is_zero p.min_play_count_protect || ltb_ℤ (pos m.plays) p.min_play_count_protect)
    && (not require_age || age_eligible now p m)

-- The ORDER BY: tracks never played, then by plays, by the last of them, and by age.
abbrev pub rank : Media → ℕ
rank m = if is_unplayed m then 0 else 1

abbrev pub precedes : Media → Media → Bool
precedes a b =
    ltb (rank a) (rank b)
    || (rank a == rank b
        && (ltb a.plays b.plays
            || (a.plays == b.plays
                && (ltb (or_else 0 (last_activity a)) (or_else 0 (last_activity b))
                    || (or_else 0 (last_activity a) == or_else 0 (last_activity b)
                        && ltb a.created_at b.created_at)))))

abbrev pub insert_media : Media → List Media → List Media
insert_media m [] = m ∷ []
insert_media m (n ∷ ns) =
    let rest = insert_media m ns in if precedes n m then n ∷ rest else m ∷ n ∷ ns

abbrev pub sort_media : List Media → List Media
sort_media [] = []
sort_media (m ∷ ms) = insert_media m (sort_media ms)

-- `pressure`, of the bytes in the managed libraries and those that are free on the disk.
abbrev pub storage_pressure : Policy → ℤ → Bool
storage_pressure p managed = uses_storage p && not (ltb_ℤ managed (high_water p))

abbrev pub free_pressure : Policy → ℤ → Bool
free_pressure p free = uses_free_space p && (ltb_ℤ (pos 0) free && ltb_ℤ free p.min_free_bytes)

-- `requireAge`, by the mode and the two pressures.
abbrev pub age_required : Mode → Bool → Bool → ℤ → Bool
age_required Mode.storage st fs days = false
age_required Mode.free_space st fs days = false
age_required Mode.hybrid st fs days = not st && not fs
age_required _ st fs days = ltb_ℤ (pos 0) days

-- `skipRun`.
abbrev pub skips : Mode → Bool → Bool → Bool
skips Mode.storage st fs = not st
skips Mode.free_space st fs = not fs
skips _ st fs = false

-- The disk and the libraries as a run finds them.
pub record Disk : Type 0 where
  pub managed : ℤ
  pub free : ℤ

-- `candidates`.
unfoldable pub candidates : ℕ → Policy → Busy → Disk → ℤ → List Media → List Media
candidates now p busy disk limit tracks =
    let st = storage_pressure p disk.managed in
    let fs = free_pressure p disk.free in
    let most = if ltb_ℤ (pos 0) limit then limit else p.batch_size in
    if skips p.mode st fs
    then []
    else take (floor_zero most)
        (sort_media (keep (is_candidate now p busy (age_required p.mode st fs p.age_days)) tracks))
