-- ===== src/Playback/Engine/Kept.antt =====
-- What the requests other than commands keep (internal/playback).
use sound_dock.Base.{
  ℕ, ◌+◌, ◌≡◌, refl, sym, subst, ◌≢◌, ℤ, Bool, true, String, List, [], ◌∷◌, length, ok, err, arith,
  ◌>>=◌, >>=-eq-ok, Bool-cases, inl, inr,
}
use sound_dock.Playback.Session.{Session, Dock, Try, bump_revision}
use sound_dock.Playback.Queue.{tracks, add_tracks}
use sound_dock.Playback.Queue.Insert.{add_tracks_sound}
use sound_dock.Playback.Env.{Env}
use sound_dock.Playback.Lease.{acquire_browser_renderer}
use sound_dock.Playback.Cursor.{replace_queue, drop_tracks}
use sound_dock.Playback.Cursor.WellFormed.{
  WellFormed, PointsAt, replace_queue-WellFormed, drop_tracks-WellFormed,
}
use sound_dock.Playback.Control.WellFormed.{on_row, added-PointsAt}
use sound_dock.Playback.Lease.Takeover.{switch_takes, release_same, claim_same}
use sound_dock.Playback.Lease.Takeover
use sound_dock.Playback.Engine.{replace, add, drop, set_position, commit, is_affected}

-- A request that writes the playhead or the lease only: a refusal leaves the row.
abbrev pub on_row_of : Dock → Try Session → Dock
on_row_of d (ok s) = record d { session = s }
on_row_of d (err e) = d

abbrev pub answered : Try (Session × ℤ) → Try Session
answered m = m >>= λ (s, generation). ok s

pub keeps-WellFormed :
    (d : Dock) (s : Session)
    → s.current_index ≡ d.session.current_index
    → s.current_track ≡ d.session.current_track
    → WellFormed d
    → WellFormed (record d { session = s })
keeps-WellFormed d s i t w = record { numbered = w.numbered; cursor = rw (i, t) w.cursor }

pub on_row_of-WellFormed :
    (d : Dock) (m : Try Session)
    → ((s : Session)
        → m ≡ ok s
        → (s.current_index ≡ d.session.current_index) × (s.current_track ≡ d.session.current_track))
    → WellFormed d
    → WellFormed (on_row_of d m)
on_row_of-WellFormed d (ok s) same w = let (i, t) = same s refl in keeps-WellFormed d s i t w
on_row_of-WellFormed d (err e) same w = w

pub commit-WellFormed :
    (d : Dock) (m : Try Dock)
    → ((d' : Dock) → m ≡ ok d' → WellFormed d')
    → WellFormed d
    → WellFormed (commit d m).0
commit-WellFormed d (ok d') made w =
    keeps-WellFormed d' (bump_revision d'.session) refl refl (made d' refl)
commit-WellFormed d (err e) made w = w

pub add-WellFormed :
    (env : Env) (ts : List ℕ) (ahead : Bool) (d : Dock)
    → (ahead ≡ true → d.items ≢ [])
    → WellFormed d
    → WellFormed (add env ts ahead d).0
unfolding add
add-WellFormed env [] ahead d n w = w
add-WellFormed env (t ∷ ts) ahead d n w = commit-WellFormed d _ made w
  where
    made :
        (d' : Dock)
        → (add_tracks env.catalog env.who d.next_uuid d.session.current_index (t ∷ ts) ahead d.items
            >>= λ rows. ok (record d { items = rows; next_uuid = d.next_uuid + length (t ∷ ts) }))
          ≡ ok d'
        → WellFormed d'
    made d' e =
        let (rows, had, same) =
          >>=-eq-ok
            (add_tracks env.catalog env.who d.next_uuid d.session.current_index (t ∷ ts) ahead
              d.items)
            _ e in
        let (numbered, listed) =
          add_tracks_sound env.catalog env.who d.next_uuid d.session.current_index (t ∷ ts) ahead
            d.items w.numbered (λ a. on_row d w (n a)) had in
        let w' : WellFormed (record d { items = rows; next_uuid = d.next_uuid + length (t ∷ ts) }) =
          record {
            numbered = numbered;
            cursor = subst (PointsAt d.session.current_track d.session.current_index) (sym listed) (
                added-PointsAt d.session.current_track d.session.current_index (t ∷ ts) ahead
                  (tracks d.items) w.cursor);
          } in
        subst WellFormed (cc) w'

pub drop-WellFormed :
    (env : Env) (gone : List ℕ) (d : Dock) → WellFormed d → WellFormed (drop env gone d)
unfolding drop
drop-WellFormed env gone d w = elim (Bool-cases (is_affected gone d)) [
  | inl e ↦ rw e (
      keeps-WellFormed (drop_tracks env gone d) (bump_revision (drop_tracks env gone d).session)
        refl refl (drop_tracks-WellFormed env gone d))
  | inr e ↦ rw e w
]

pub replace-WellFormed :
    (env : Env) (ts : List ℕ) (start : ℤ) (d : Dock)
    → WellFormed d
    → WellFormed (replace env ts start d).0
unfolding replace
replace-WellFormed env ts start d w =
    commit-WellFormed d (replace_queue env ts start d)
      (λ d' e. replace_queue-WellFormed env ts start d e) w

pub set_position-WellFormed :
    (ms : ℤ) (d : Dock)
    → WellFormed d
    → WellFormed (record d { session = set_position ms d.session })
unfolding set_position
set_position-WellFormed ms d w =
    keeps-WellFormed d (set_position ms d.session) (ground arith) (ground arith) w

pub acquired-WellFormed :
    (now : ℕ) (id : String) (expected : ℤ) (d : Dock) (m : Try (Session × ℤ))
    → acquire_browser_renderer now id expected d.session ≡ m
    → WellFormed d
    → WellFormed (on_row_of d (answered m))
acquired-WellFormed now id expected d (ok (s, generation)) e w =
    let (held, next, counted, (i, t, p, m)) =
      Takeover.acquired now id expected d.session s generation e in
    keeps-WellFormed d s i t w
acquired-WellFormed now id expected d (err x) e w = w
