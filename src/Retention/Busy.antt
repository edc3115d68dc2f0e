-- ===== src/Retention/Busy.antt =====
-- internal/retention/busy.go: the tracks and libraries that the jobs in progress and the open streams
-- name. A payload is what json.Unmarshal makes of it: one that is no object has no keys.
use Prim.Native.Char.{code}
use sound_dock.Base.{
  ℕ, zero, suc, Bool, true, false, ◌&&◌, ◌||◌, Option, none, some, List, [], ◌∷◌, ◌++◌, String, leb,
  ◌==◌, if◌then◌else◌, trim_space, one_of,
}
use sound_dock.Playback.Extra.{Value, Values, Fields, text, list, nil, cons, get}
use sound_dock.Jobs.Rows.{JobStatus}
use sound_dock.Retention.Candidates.{Busy}

-- A row of the jobs that the query reads.
pub record JobRow : Type 0 where
  pub kind : String
  pub status : JobStatus
  pub payload : Fields

-- `status IN ('queued','running','retry')`.
abbrev pub in_progress : JobStatus → Bool
in_progress JobStatus.queued = true
in_progress JobStatus.running = true
in_progress JobStatus.retry = true
in_progress _ = false

-- `addTrack` and `addLib`: uuid.Nil is not added. The keys of a map are a list here.
abbrev pub add_id : ℕ → List ℕ → List ℕ
add_id id ids = if id == 0 then ids else id ∷ ids

abbrev pub or_nil : Option ℕ → ℕ
or_nil none = 0
or_nil (some id) = id

-- A letter, digit, `_` or `-` of a video id.
abbrev pub is_id_char : ℕ → Bool
is_id_char n =
    (leb 65 n && leb n 90)
    || (leb 97 n && leb n 122)
    || (leb 48 n && leb n 57)
    || n == 95
    || n == 45

-- So many characters of that kind, and no more.
abbrev pub has_id_chars : ℕ → String → Bool
has_id_chars zero String.[] = true
has_id_chars zero (String.◌∷◌ c s) = false
has_id_chars (suc n) String.[] = false
has_id_chars (suc n) (String.◌∷◌ c s) = is_id_char (code c) && has_id_chars n s

-- `IsYouTubeID`.
unfoldable pub is_youtube_id : String → Bool
is_youtube_id s = has_id_chars 11 (trim_space s)

-- `anySlice`.
unfoldable pub any_slice : Value → Values
any_slice (list vs) = vs
any_slice _ = nil

-- The video ids among the values of `urls`.
unfoldable pub refs_of : Values → List String
refs_of nil = []
refs_of (cons (text s) vs) =
    let rest = refs_of vs in if is_youtube_id (trim_space s) then trim_space s ∷ rest else rest
refs_of (cons _ vs) = refs_of vs

unfoldable pub job_refs : List JobRow → List String
job_refs [] = []
job_refs (j ∷ js) =
    let rest = job_refs js in
    if in_progress j.status then refs_of (any_slice (get "urls" j.payload)) ++ rest else rest

-- A track and its `acquisition_ref`.
pub record Origin : Type 0 where
  pub track : ℕ
  pub acquisition_ref : String

-- `SELECT id FROM tracks WHERE acquisition_ref = ANY($1)`, and `addTrack` of each.
unfoldable pub add_found : List String → List Origin → List ℕ → List ℕ
add_found refs [] ids = ids
add_found refs (o ∷ os) ids =
    let rest = add_found refs os ids in
    if one_of refs o.acquisition_ref then add_id o.track rest else rest

unfoldable pub add_all : List ℕ → List ℕ → List ℕ
add_all [] ids = ids
add_all (id ∷ more) ids = add_id id (add_all more ids)

-- `parse` stands for `uuid.Parse`.
module _ (parse : String → Option ℕ) where
  -- `uuidFromAny`; json.Unmarshal makes no []byte.
  unfoldable pub uuid_from_any : Value → ℕ
  uuid_from_any (text s) = or_nil (parse s)
  uuid_from_any _ = 0

  unfoldable pub add_values : Values → List ℕ → List ℕ
  add_values nil ids = ids
  add_values (cons v vs) ids = add_id (uuid_from_any v) (add_values vs ids)

  -- One row of the loop. What its last switch adds, `library_id`, is there already.
  unfoldable pub add_job_tracks : Fields → List ℕ → List ℕ
  add_job_tracks p ids =
      add_id (uuid_from_any (get "track_id" p))
        (add_values (any_slice (get "ids" p)) (add_values (any_slice (get "track_ids" p)) ids))

  unfoldable pub add_job_libraries : Fields → List ℕ → List ℕ
  add_job_libraries p ids = add_id (uuid_from_any (get "library_id" p)) (
      add_id (uuid_from_any (get "dest" p)) (
        add_id (uuid_from_any (get "dest_library_id" p)) (
          add_id (uuid_from_any (get "source_library_id" p))
            (add_values (any_slice (get "source_ids" p)) ids))))

  unfoldable pub job_tracks : List JobRow → List ℕ → List ℕ
  job_tracks [] ids = ids
  job_tracks (j ∷ js) ids =
      let rest = job_tracks js ids in
      if in_progress j.status then add_job_tracks j.payload rest else rest

  unfoldable pub job_libraries : List JobRow → List ℕ
  job_libraries [] = []
  job_libraries (j ∷ js) =
      let rest = job_libraries js in
      if in_progress j.status then add_job_libraries j.payload rest else rest

  -- `busy`, of the jobs, or `none` if the query fails; and of the tracks with an open stream.
  unfoldable pub busy : Option (List JobRow) → List Origin → List ℕ → Busy
  busy none origins live = record { tracks = []; libraries = [] }
  busy (some js) origins live = record {
    tracks = job_tracks js (add_found (job_refs js) origins (add_all live []));
    libraries = job_libraries js;
  }
