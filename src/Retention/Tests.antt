-- ===== src/Retention/Tests.antt =====
-- A library of four tracks and a policy that keeps it below 1000 bytes.
use sound_dock.Base.{◌≡◌, refl, ℕ, pos, true, false, none, some, [], ◌∷◌, List, All}
use sound_dock.Base.{String, str_eq, Option, if◌then◌else◌, inl, inr, ◌≢◌, arith}
use sound_dock.Playback.Extra.{text, list, cons, nil, field, end, get}
use sound_dock.Jobs.Rows.{JobStatus}
use sound_dock.Retention.Busy.{
  JobRow, busy, job_tracks, add_job_tracks, add_values, any_slice, uuid_from_any, add_all,
  add_found, job_refs, refs_of, job_libraries, add_job_libraries, is_youtube_id,
}
use sound_dock.Retention.InUse.{Names, used_spared}
use sound_dock.Retention.Policy.{
  Policy, Mode, default_policy, normalize, low_water, free_target, nine_tenths,
}
use sound_dock.Retention.Candidates.{Media, Busy, Disk, candidates, is_candidate}
use sound_dock.Retention.Prune.{Course, Payload, Outcome, run, runs, prune, prune_loop}
use sound_dock.Base.{take}
use sound_dock.Retention.Prune.{preview, total_size}
use sound_dock.Retention.Spared.{IsSpare, run_spares}
use sound_dock.Retention.Preview.{preview-prune}
use sound_dock.Retention.Water.{IsSteady, normalize-IsSteady}

abbrev keeps_1000 : Policy
keeps_1000 = record default_policy {
  enabled = true;
  mode = Mode.storage;
  max_managed_bytes = pos 1000;
  prune_down_to_bytes = pos 800;
}

abbrev download : ℕ → ℕ → Media
download id plays = record {
  id = id;
  library = 1;
  size_bytes = 300;
  plays = plays;
  last_played = none;
  last_heard = none;
  created_at = 0;
  acquisition = "url";
  is_unavailable = false;
  is_kept_forever = false;
  is_opted_in = false;
  is_managed = true;
  is_read_only = false;
  is_favourite = false;
  is_on_favourite_album = false;
  is_by_favourite_artist = false;
  is_in_own_playlist = false;
  is_excluded = false;
  is_on_excluded_album = false;
  is_in_excluded_library = false;
  is_by_excluded_artist = false;
  is_in_excluded_playlist = false;
  is_queued = false;
  is_current = false;
}

-- Track 2 is a favourite, and track 3 is being streamed.
abbrev tracks : List Media
tracks =
    download 1 5 ∷ record (download 2 0) { is_favourite = true } ∷ download 3 0 ∷ download 4 1 ∷ []

abbrev streaming : Busy
streaming = record { tracks = 3 ∷ []; libraries = [] }

abbrev full : Disk
full = record { managed = pos 1200; free = pos 5000 }

abbrev calm : Course
calm = record { stopped = λ m. false; purge = λ m. some m.size_bytes; noted = λ m. true }

abbrev forced : Payload
forced = record { force = true; preview = false; scheduled = false }

abbrev outcome : Outcome
outcome = prune 100 keeps_1000 streaming full full false calm tracks

run_of_forced : run 100 keeps_1000 forced true streaming full full calm tracks ≡ some outcome
unfolding run runs
run_of_forced = refl

run_spares_example : All (IsSpare streaming) outcome.pruned
run_spares_example =
    run_spares 100 keeps_1000 forced true streaming full full calm tracks outcome run_of_forced

preview-prune_example :
    ((preview (pos 1) 100 keeps_1000 streaming full full tracks).preview ≡ take 1 outcome.pruned)
    × ((preview (pos 1) 100 keeps_1000 streaming full full tracks).eligible_bytes
        ≡ total_size outcome.pruned)
preview-prune_example =
    preview-prune (pos 1) 100 keeps_1000 streaming full full false calm tracks
      (λ m. (refl, refl, refl))

-- The run prunes tracks 4 and 1, after which 600 bytes are left.
prunes_both : outcome.pruned ≡ download 4 1 ∷ download 1 5 ∷ []
unfolding prune prune_loop candidates is_candidate low_water free_target nine_tenths
prunes_both = refl

normalize-IsSteady_example :
    IsSteady (normalize (record { mode_text = " Storage "; rest = keeps_1000 }))
normalize-IsSteady_example =
    normalize-IsSteady (record { mode_text = " Storage "; rest = keeps_1000 }) refl refl

-- A job that downloads track 1 again, and a stream of track 4; `parse_one` reads one UUID only.
abbrev parse_one : String → Option ℕ
parse_one s = if str_eq s "0001" then some 1 else none

abbrev redownload : JobRow
redownload = record {
  kind = "external.acquire";
  status = JobStatus.retry;
  payload = field "track_ids" (list (cons (text "x") (cons (text "0001") nil))) end;
}

abbrev taken : Busy
taken = busy parse_one (some (redownload ∷ [])) [] (4 ∷ [])

abbrev spared : Outcome
spared = prune 100 keeps_1000 taken full full false calm tracks

run_of_taken : run 100 keeps_1000 forced true taken full full calm tracks ≡ some spared
unfolding run runs
run_of_taken = refl

redownload-Names : Names parse_one 1 redownload.payload
unfolding get any_slice uuid_from_any
redownload-Names = inr (inr (inr (inl refl)))

used_spared_example : All (λ m. m.id ≢ 1) spared.pruned
used_spared_example =
    used_spared parse_one 100 keeps_1000 forced true (redownload ∷ []) [] (4 ∷ []) full full calm
      tracks spared 1 run_of_taken (ground arith)
      (inl (0, redownload, refl, refl, redownload-Names))

-- What the run gives up is track 3 alone.
prunes_third : spared.pruned ≡ download 3 0 ∷ []
unfolding prune prune_loop candidates is_candidate low_water free_target nine_tenths busy job_tracks
    add_job_tracks add_values get any_slice uuid_from_any add_all add_found job_refs refs_of
    job_libraries add_job_libraries
prunes_third = refl

video_id : is_youtube_id " dQw4w9WgXcQ" ≡ true
unfolding is_youtube_id
video_id = refl
