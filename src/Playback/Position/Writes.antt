-- ===== src/Playback/Position/Writes.antt =====
-- Which position writes count (internal/playback/playhead.go).
use sound_dock.Base.{
  ℕ, ◌≤◌, ◌<◌, ◌≡◌, refl, ◌⊎◌, inl, inr, ℤ, pos, floor_zero, Bool, true, false, Option, none, some,
  ok, err, arith, holds-eq, leb, if◌then◌else◌, ◌||◌,
}
use sound_dock.Playback.Session.{Session, Dock, Playhead, instance_mismatch}
use sound_dock.Playback.Env.{Env}
use sound_dock.Playback.Cursor.{play_row}
use sound_dock.Playback.Control.{seek_to}
use sound_dock.Playback.Position.{
  checkpoint_playhead, persist_position, max_drift, drift, may_checkpoint, at_position, mismatch,
}

may_checkpoint-cases :
    (instance n : ℕ) (p : Playhead)
    → may_checkpoint instance n p ≡ true
    → (p.instance_id ≡ some instance) × ((p.sequence ≤ 1) ⊎ (drift p.position_ms n ≤ 8000))
may_checkpoint-cases instance n p h = (
  holds-eq p.instance_id instance (ground arith),
  split (p.sequence) (drift p.position_ms n) (ground arith),
)
  where
    split : (a b : ℕ) → (leb a 1 || leb b max_drift) ≡ true → (a ≤ 1) ⊎ (b ≤ 8000)
    split a b e = ground arith

mismatch-ok :
    (o : Option ℕ) (instance : ℕ) (s : Session) {s' : Session}
    → mismatch o instance s ≡ ok s'
    → s' ≡ s
mismatch-ok none instance s h = cc
mismatch-ok (some found) instance s h = ground arith

-- A checkpoint that succeeds either leaves the session as it was, or writes only its position, at
-- least 0, its time and the next sequence, and that for the playing instance and with a position at
-- most 8000 ms from the stored one, unless the instance has had no write after its first.
pub checkpoint_cases :
    (now instance : ℕ) (ms : ℤ) (s : Session) {s' : Session}
    → checkpoint_playhead now instance ms s ≡ ok s'
    → (s' ≡ s)
      ⊎ ((s' ≡ at_position now (floor_zero ms) s)
          × (s.playhead.instance_id ≡ some instance)
          × ((s.playhead.sequence ≤ 1) ⊎ (drift s.playhead.position_ms (floor_zero ms) ≤ 8000)))
unfolding checkpoint_playhead
checkpoint_cases now instance ms s {s'} h =
    split (may_checkpoint instance (floor_zero ms) s.playhead) refl h
  where
    split :
        (b : Bool)
        → may_checkpoint instance (floor_zero ms) s.playhead ≡ b
        → (if b
            then ok (at_position now (floor_zero ms) s)
            else mismatch s.playhead.instance_id instance s)
          ≡ ok s'
        → (s' ≡ s)
          ⊎ ((s' ≡ at_position now (floor_zero ms) s)
              × (s.playhead.instance_id ≡ some instance)
              × ((s.playhead.sequence ≤ 1) ⊎ (drift s.playhead.position_ms (floor_zero ms) ≤ 8000)))
    split true e q =
        let (own, near) = may_checkpoint-cases instance (floor_zero ms) s.playhead e in
        inr (cc, own, near)
    split false e q = inl (mismatch-ok s.playhead.instance_id instance s q)

-- The late writes of a track that is no longer playing are ignored: after a row was started anew,
-- which takes a new instance, a browser's position for an older instance is not stored, and a
-- checkpoint for it is refused.
pub late_writes :
    (env : Env) (idx t now old : ℕ) (ms : ℤ) (d : Dock)
    → old < d.next_uuid
    → (persist_position now old ms (play_row env idx t d).session
        ≡ ((play_row env idx t d).session, false))
      × (checkpoint_playhead now old ms (play_row env idx t d).session ≡ err instance_mismatch)
unfolding persist_position checkpoint_playhead
late_writes env idx t now old ms d older = (ground arith, ground arith)

-- A seek wins over the checkpoint of a streamer that still counts from before it: more than 8000 ms
-- away from the new position, on an instance that has had a write, it changes nothing.
pub seek_wins :
    (env : Env) (to elapsed : ℤ) (now instance : ℕ) (d : Dock)
    → d.session.playhead.instance_id ≡ some instance
    → 1 ≤ d.session.playhead.sequence
    → max_drift < drift (pos (floor_zero to)) (floor_zero elapsed)
    → checkpoint_playhead now instance elapsed (seek_to env to d).session
      ≡ ok (seek_to env to d).session
unfolding checkpoint_playhead seek_to
seek_wins env to elapsed now instance d own begun far = ground arith

pub persist_same :
    (now instance : ℕ) (ms : ℤ) (s : Session)
    → ((persist_position now instance ms s).0.current_index ≡ s.current_index)
      × ((persist_position now instance ms s).0.current_track ≡ s.current_track)
unfolding persist_position
persist_same now instance ms s = ground arith
