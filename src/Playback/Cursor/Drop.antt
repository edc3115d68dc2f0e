-- ===== src/Playback/Cursor/Drop.antt =====
-- Which rows and which song a deletion of tracks leaves (internal/playback/drop.go).
use sound_dock.Base.{
  ℕ, zero, suc, ◌≡◌, refl, ap, ◌∙◌, ◌≢◌, false, not, Option, none, some, List, [], ◌∷◌, keep,
  contains, get_elem?, arith, ◌==◌, Bool-cases, inl, inr,
}
use sound_dock.Playback.Session.{Item, Dock, nil_uuid}
use sound_dock.Playback.Queue.{tracks, renumber, delete_tracks}
use sound_dock.Playback.Queue.Numbered.{tracks-renumber}
use sound_dock.Playback.Queue.Remove.{tracks-delete_tracks}
use sound_dock.Playback.Env.{Env}
use sound_dock.Playback.Cursor.{
  drop_tracks, after_drop, keep_or_fall_back, fall_back, position_of, kept_track,
}
use sound_dock.Playback.Cursor.WellFormed.{WellFormed, drop_tracks-WellFormed}

keep_or_fall_back-items :
    (env : Env) (t : Option ℕ) (d : Dock) → (keep_or_fall_back env t d).items ≡ d.items
unfolding keep_or_fall_back fall_back
keep_or_fall_back-items env none d = ground arith
keep_or_fall_back-items env (some t) d = ground arith

after_drop-items :
    (env : Env) (gone : List ℕ) (d : Dock) (rows : List Item)
    → (after_drop env gone d rows).items ≡ rows
after_drop-items env gone d [] = refl
after_drop-items env gone d (r ∷ rs) =
    keep_or_fall_back-items env (kept_track gone d.session.current_track)
      (record d { items = r ∷ rs })

-- The rows of a track that is there have a position.
position_of-there :
    (t i : ℕ) (rows : List Item)
    → get_elem? (tracks rows) i ≡ some t
    → (p : ℕ) × (position_of t rows ≡ some p)
unfolding position_of
position_of-there t i [] e = cc
position_of-there t zero (r ∷ rs) e = (r.position, ground arith)
position_of-there t (suc i) (r ∷ rs) e = elim (Bool-cases (r.track == t)) [
  | inl hit ↦ (r.position, ground arith)
  | inr miss ↦ let (p, found) = position_of-there t i rs e in (p, ground arith)
]

get_elem?-keep :
    (gone : List ℕ) (t i : ℕ) (ts : List ℕ)
    → contains gone t ≡ false
    → get_elem? ts i ≡ some t
    → (j : ℕ) × (get_elem? (keep (λ u. not (contains gone u)) ts) j ≡ some t)
get_elem?-keep gone t i [] c e = cc
get_elem?-keep gone t zero (u ∷ us) c e = (0, ground arith)
get_elem?-keep gone t (suc i) (u ∷ us) c e =
    let (j, found) = get_elem?-keep gone t i us c e in
    elim (Bool-cases (contains gone u)) [
      | inl out ↦ (j, ground arith)
      | inr stays ↦ (suc j, ground arith)
    ]

keep-song :
    (env : Env) (o : Option ℕ) (t p : ℕ) (d : Dock)
    → o ≡ some t
    → position_of t d.items ≡ some p
    → ((keep_or_fall_back env o d).session.current_track ≡ some t)
      × ((keep_or_fall_back env o d).session.playhead ≡ d.session.playhead)
unfolding keep_or_fall_back
keep-song env none t p d kept found = cc
keep-song env (some u) t p d kept found = ground arith

after_drop-song :
    (env : Env) (gone : List ℕ) (t j : ℕ) (d : Dock) (rows : List Item)
    → get_elem? (tracks rows) j ≡ some t
    → d.session.current_track ≡ some t
    → t ≢ nil_uuid
    → contains gone t ≡ false
    → ((after_drop env gone d rows).session.current_track ≡ some t)
      × ((after_drop env gone d rows).session.playhead ≡ d.session.playhead)
after_drop-song env gone t j d [] there cur real c = cc
after_drop-song env gone t j d (r ∷ rs) there cur real c =
    let (p, found) = position_of-there t j (r ∷ rs) there in
    let kept : kept_track gone d.session.current_track ≡ some t = ground (arith, real) in
    keep-song env (kept_track gone d.session.current_track) t p (record d { items = r ∷ rs }) kept
      found

-- Dropping tracks from a session leaves it well formed, whatever it was, with the other tracks of the
-- queue in their order.
pub drop_tracks-refines :
    (env : Env) (gone : List ℕ) (d : Dock)
    → WellFormed (drop_tracks env gone d)
      × (tracks (drop_tracks env gone d).items ≡ keep (λ t. not (contains gone t)) (tracks d.items))
unfolding drop_tracks
drop_tracks-refines env gone d = (
  drop_tracks-WellFormed env gone d,
  ap tracks (after_drop-items env gone d (renumber 0 (delete_tracks gone d.items)))
      ∙ tracks-renumber 0 (delete_tracks gone d.items)
      ∙ tracks-delete_tracks gone d.items,
)

-- Dropping tracks other than the current one, in a well-formed session, goes unheard: the current
-- track and the playhead (status, position, instance, sequence) stay. The current track is not nil.
pub drop_tracks_keeps_song :
    (env : Env) (gone : List ℕ) (t : ℕ) (d : Dock)
    → WellFormed d
    → d.session.current_track ≡ some t
    → t ≢ nil_uuid
    → contains gone t ≡ false
    → ((drop_tracks env gone d).session.current_track ≡ some t)
      × ((drop_tracks env gone d).session.playhead ≡ d.session.playhead)
unfolding drop_tracks
drop_tracks_keeps_song env gone t d w cur real c =
    let here : get_elem? (tracks d.items) d.session.current_index ≡ some t = ground (arith, w) in
    let (j, found) = get_elem?-keep gone t d.session.current_index (tracks d.items) c here in
    let rows = renumber 0 (delete_tracks gone d.items) in
    let listed =
      tracks-renumber 0 (delete_tracks gone d.items) ∙ tracks-delete_tracks gone d.items in
    after_drop-song env gone t j d rows (ap (λ ts. get_elem? ts j) listed ∙ found) cur real c
