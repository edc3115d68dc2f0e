-- ===== src/Retention/InUse.antt =====
-- Tracks that are in use are not given up (internal/retention/busy.go, candidates.go and engine.go).
use sound_dock.Base.{
  ℕ, zero, suc, subst, sym, ◌≡◌, ◌≢◌, inl, inr, ◌⊎◌, Bool, true, false, Option, some, List, [], ◌∷◌,
  String, ◌==◌, if◌then◌else◌, if-either, if-true, contains, get_elem?, arith, All, All-imp, one_of,
  Bool-cases,
}
use sound_dock.Playback.Extra.{Values, Fields, nil, cons, get}
use sound_dock.Retention.Busy.{
  JobRow, Origin, in_progress, add_id, any_slice, add_found, add_all, uuid_from_any, add_values,
  add_job_tracks, job_tracks, busy, job_refs,
}
use sound_dock.Retention.Policy.{Policy}
use sound_dock.Retention.Candidates.{Media, Busy, Disk}
use sound_dock.Retention.Prune.{Course, Outcome, Payload, run}
use sound_dock.Retention.Spared.{IsSpare, run_spares}

abbrev Keeps : (List ℕ → List ℕ) → Type 0
Keeps f = (ids : List ℕ) (id : ℕ) → contains ids id ≡ true → contains (f ids) id ≡ true

add_id-Keeps : (x : ℕ) → Keeps (add_id x)
add_id-Keeps x ids id h = ground arith

add_id-adds : (id : ℕ) (ids : List ℕ) → id ≢ 0 → contains (add_id id ids) id ≡ true
add_id-adds id ids named = ground arith

add_found-Keeps : (refs : List String) (os : List Origin) → Keeps (add_found refs os)
unfolding add_found
add_found-Keeps refs [] ids id h = h
add_found-Keeps refs (o ∷ os) ids id h =
    if-either (λ rest. contains rest id ≡ true) (one_of refs o.acquisition_ref)
      (add_id-Keeps o.track (add_found refs os ids) id (add_found-Keeps refs os ids id h))
      (add_found-Keeps refs os ids id h)

add_all-adds :
    (live ids : List ℕ) (id : ℕ)
    → id ≢ 0
    → contains live id ≡ true
    → contains (add_all live ids) id ≡ true
unfolding add_all
add_all-adds [] ids id named h = ground arith
add_all-adds (x ∷ xs) ids id named h = elim (Bool-cases (x == id)) [
  | inl same ↦ ground arith
  | inr other ↦ add_id-Keeps x (add_all xs ids) id (add_all-adds xs ids id named (ground arith))
]

clash :
    (found : Busy) (m : Media) (id : ℕ)
    → contains found.tracks id ≡ true
    → IsSpare found m
    → m.id ≡ id
    → ⊥
clash found m id busy spare same =
    let quiet = subst (λ k. contains found.tracks k ≡ false) same spare.not_busy in cc

module _ (parse : String → Option ℕ) where
  -- A JSON text among these values is read as this track.
  abbrev pub Lists : ℕ → Values → Type 0
  Lists id nil = ⊥
  Lists id (cons v vs) = (uuid_from_any parse v ≡ id) ⊎ Lists id vs

  -- The payload names the track, by one of the three keys.
  abbrev pub Names : ℕ → Fields → Type 0
  Names id p =
      (uuid_from_any parse (get "track_id" p) ≡ id)
      ⊎ (Lists id (any_slice (get "ids" p)) ⊎ Lists id (any_slice (get "track_ids" p)))

  add_values-Keeps : (vs : Values) → Keeps (add_values parse vs)
  unfolding add_values
  add_values-Keeps nil ids id h = h
  add_values-Keeps (cons v vs) ids id h =
      add_id-Keeps (uuid_from_any parse v) (add_values parse vs ids) id
        (add_values-Keeps vs ids id h)

  add_values-adds :
      (vs : Values) (ids : List ℕ) (id : ℕ)
      → id ≢ 0
      → Lists id vs
      → contains (add_values parse vs ids) id ≡ true
  unfolding add_values
  add_values-adds nil ids id named h = absurd h
  add_values-adds (cons v vs) ids id named (inl e) =
      subst (λ x. contains (add_id x (add_values parse vs ids)) id ≡ true) (sym e)
        (add_id-adds id (add_values parse vs ids) named)
  add_values-adds (cons v vs) ids id named (inr h) =
      add_id-Keeps (uuid_from_any parse v) (add_values parse vs ids) id
        (add_values-adds vs ids id named h)

  add_job_tracks-Keeps : (p : Fields) → Keeps (add_job_tracks parse p)
  unfolding add_job_tracks
  add_job_tracks-Keeps p ids id h =
      let more = add_values parse (any_slice (get "track_ids" p)) ids in
      add_id-Keeps (uuid_from_any parse (get "track_id" p))
        (add_values parse (any_slice (get "ids" p)) more) id
        (add_values-Keeps (any_slice (get "ids" p)) more id
          (add_values-Keeps (any_slice (get "track_ids" p)) ids id h))

  add_job_tracks-adds :
      (p : Fields) (ids : List ℕ) (id : ℕ)
      → id ≢ 0
      → Names id p
      → contains (add_job_tracks parse p ids) id ≡ true
  unfolding add_job_tracks
  add_job_tracks-adds p ids id named (inl e) =
      subst
        (λ x.
          contains
            (add_id x (
              add_values parse (any_slice (get "ids" p))
                (add_values parse (any_slice (get "track_ids" p)) ids)))
            id
          ≡ true)
        (sym e)
        (add_id-adds id
          (add_values parse (any_slice (get "ids" p))
            (add_values parse (any_slice (get "track_ids" p)) ids))
          named)
  add_job_tracks-adds p ids id named (inr (inl h)) =
      let more = add_values parse (any_slice (get "track_ids" p)) ids in
      add_id-Keeps (uuid_from_any parse (get "track_id" p))
        (add_values parse (any_slice (get "ids" p)) more) id
        (add_values-adds (any_slice (get "ids" p)) more id named h)
  add_job_tracks-adds p ids id named (inr (inr h)) =
      let more = add_values parse (any_slice (get "track_ids" p)) ids in
      add_id-Keeps (uuid_from_any parse (get "track_id" p))
        (add_values parse (any_slice (get "ids" p)) more) id
        (add_values-Keeps (any_slice (get "ids" p)) more id
          (add_values-adds (any_slice (get "track_ids" p)) ids id named h))

  job_tracks-Keeps : (js : List JobRow) → Keeps (job_tracks parse js)
  unfolding job_tracks
  job_tracks-Keeps [] ids id h = h
  job_tracks-Keeps (j ∷ js) ids id h =
      if-either (λ rest. contains rest id ≡ true) (in_progress j.status)
        (add_job_tracks-Keeps j.payload (job_tracks parse js ids) id (job_tracks-Keeps js ids id h))
        (job_tracks-Keeps js ids id h)

  job_tracks-adds :
      (js : List JobRow) (i : ℕ) (j : JobRow) (ids : List ℕ) (id : ℕ)
      → id ≢ 0
      → get_elem? js i ≡ some j
      → in_progress j.status ≡ true
      → Names id j.payload
      → contains (job_tracks parse js ids) id ≡ true
  unfolding job_tracks
  job_tracks-adds [] i j ids id named e going names = cc
  job_tracks-adds (k ∷ js) zero j ids id named e going names =
      let same : k ≡ j = cc in
      subst
        (λ (x : JobRow).
          contains
            (if in_progress x.status
              then add_job_tracks parse x.payload (job_tracks parse js ids)
              else job_tracks parse js ids)
            id
          ≡ true)
        (sym same)
        (subst (λ all. contains all id ≡ true)
          (sym (
            if-true (in_progress j.status)
              (add_job_tracks parse j.payload (job_tracks parse js ids)) (job_tracks parse js ids)
              going))
          (add_job_tracks-adds j.payload (job_tracks parse js ids) id named names))
  job_tracks-adds (k ∷ js) (suc i) j ids id named e going names =
      let rest = job_tracks-adds js i j ids id named e going names in
      if-either (λ all. contains all id ≡ true) (in_progress k.status)
        (add_job_tracks-Keeps k.payload (job_tracks parse js ids) id rest) rest

  -- The track is in use: a job in progress names it, or it has an open stream.
  abbrev pub InUse : List JobRow → List ℕ → ℕ → Type 0
  InUse js live id =
      ((i : ℕ) × (j : JobRow) × (get_elem? js i ≡ some j)
        × (in_progress j.status ≡ true)
        × Names id j.payload)
      ⊎ (contains live id ≡ true)

  busy-contains :
      (js : List JobRow) (os : List Origin) (live : List ℕ) (id : ℕ)
      → id ≢ 0
      → InUse js live id
      → contains (busy parse (some js) os live).tracks id ≡ true
  unfolding busy
  busy-contains js os live id named (inl (i, j, e, going, names)) =
      job_tracks-adds js i j (add_found (job_refs js) os (add_all live [])) id named e going names
  busy-contains js os live id named (inr streams) =
      job_tracks-Keeps js (add_found (job_refs js) os (add_all live [])) id (
        add_found-Keeps (job_refs js) os (add_all live []) id
          (add_all-adds live [] id named streams))

  -- If the jobs can be read, a run gives up no track that a job in progress names in its payload as its
  -- track or in a list of tracks, nor one that has an open stream.
  pub used_spared :
      (now : ℕ) (p : Policy) (payload : Payload) (due : Bool) (js : List JobRow) (os : List Origin)
      (live : List ℕ) (disk later : Disk) (c : Course) (tracks : List Media) (o : Outcome) (id : ℕ)
      → run now p payload due (busy parse (some js) os live) disk later c tracks ≡ some o
      → id ≢ 0
      → InUse js live id
      → All (λ m. m.id ≢ id) o.pruned
  used_spared now p payload due js os live disk later c tracks o id e named used =
      let found = busy parse (some js) os live in
      All-imp (IsSpare found) (λ m. m.id ≢ id) o.pruned
        (λ m spare same.
          absurd (clash found m id (busy-contains js os live id named used) spare same))
        (run_spares now p payload due found disk later c tracks o e)
