-- ===== src/Listen/Pass.antt =====
-- A play is counted once in a pass through a track (internal/listen/decide.go).
use sound_dock.Base.{
  not, ◌||◌, ◌&&◌, ltb_ℤ, ◌==◌, ℕ, ◌≡◌, ◌≢◌, refl, inl, inr, ℤ, ◌≤ℤ◌, Bool, true, false, List, [],
  ◌∷◌, str_eq, arith, ==-refl, any, Bool-cases,
}
use sound_dock.Listen.Decide.{
  PlayState, Event, Action, decide, plays_in, reached, threshold_ms, near_end,
}

-- Events of one track and duration that never go back, from a position on, and none of which is a skip.
abbrev pub IsPass : ℕ → ℤ → ℤ → List Event → Type 0
IsPass track d from [] = Unit {0}
IsPass track d from (ev ∷ evs) =
    (ev.track ≡ track)
    × (ev.duration ≡ d)
    × (str_eq ev.kind "skip" ≡ false)
    × (from ≤ℤ ev.position)
    × IsPass track d ev.position evs

abbrev pub is_reached : Event → Bool
is_reached ev = reached ev.position ev.duration

abbrev pub one_if : Bool → ℕ
one_if true = 1
one_if false = 0

abbrev after : ℕ → ℤ → Bool → PlayState
after track position counted = record { track = track; counted = counted; last_pos = position }

-- The two answers of a progress event.
abbrev answer : ℕ → ℤ → Bool → PlayState × Action
answer track position true = (after track position true, Action.play)
answer track position false = (after track position false, Action.nothing)

module _ (tenths : ℤ → ℤ) where
  decide_uncounted :
      (st : PlayState) (track : ℕ) (ev : Event)
      → track ≢ 0
      → ev.track ≡ track
      → st.counted ≡ false
      → str_eq ev.kind "skip" ≡ false
      → decide tenths st ev ≡ answer track ev.position (reached ev.position ev.duration)
  unfolding decide
  decide_uncounted st track ev some_track same fresh kept =
      elim (Bool-cases (reached ev.position ev.duration)) [
        | inl far ↦ rw far (ground arith)
        | inr near ↦ rw near (ground arith)
      ]

  -- The event begins a play: there is none of the track yet, or it was over.
  abbrev pub begins : ℕ → PlayState → Event → Bool
  begins track st ev =
      not (st.track == track && st.counted)
      || (ltb_ℤ ev.position (threshold_ms ev.duration)
          && not (ltb_ℤ st.last_pos (near_end tenths ev.duration)))

  decide_begun :
      (st : PlayState) (track : ℕ) (ev : Event)
      → track ≢ 0
      → ev.track ≡ track
      → str_eq ev.kind "skip" ≡ false
      → begins track st ev ≡ true
      → decide tenths st ev ≡ answer track ev.position (reached ev.position ev.duration)
  unfolding decide reached
  decide_begun st track ev some_track same kept begun =
      elim (Bool-cases (reached ev.position ev.duration)) [
        | inl far ↦ rw far (ground arith)
        | inr near ↦ rw near (ground arith)
      ]

  decide_kept :
      (st : PlayState) (track : ℕ) (ev : Event)
      → track ≢ 0
      → ev.track ≡ track
      → str_eq ev.kind "skip" ≡ false
      → begins track st ev ≡ false
      → decide tenths st ev ≡ (after track ev.position true, Action.nothing)
  unfolding decide
  decide_kept st track ev some_track same kept stays = ground arith

  near_end-le : (d : ℤ) → threshold_ms d ≤ℤ near_end tenths d
  unfolding near_end threshold_ms
  near_end-le d = ground arith

  -- In a pass, a play that was counted is not begun again.
  begins-false :
      (track : ℕ) (d from : ℤ) (ev : Event)
      → from ≤ℤ ev.position
      → begins track (after track from true) ev ≡ false
  begins-false track d from ev le = ground (arith, near_end-le ev.duration, ==-refl track)

  plays_in-kept :
      (track : ℕ) (d from : ℤ) (evs : List Event)
      → track ≢ 0
      → IsPass track d from evs
      → plays_in tenths (after track from true) evs ≡ 0
  unfolding plays_in
  plays_in-kept track d from [] some_track h = refl
  plays_in-kept track d from (ev ∷ evs) some_track (same, during, kept, le, pass) =
      rw
        (decide_kept (after track from true) track ev some_track same kept
          (begins-false track d from ev le))
        (omega (arith, plays_in-kept track d ev.position evs some_track pass))

  plays_in-uncounted :
      (track : ℕ) (d from : ℤ) (evs : List Event) (st : PlayState)
      → track ≢ 0
      → st.counted ≡ false
      → IsPass track d from evs
      → plays_in tenths st evs ≡ one_if (any is_reached evs)
  unfolding plays_in
  plays_in-uncounted track d from [] st some_track fresh h = refl
  plays_in-uncounted track d from (ev ∷ evs) st some_track fresh (same, during, kept, le, pass) =
      let there = decide_uncounted st track ev some_track same fresh kept in
      elim (Bool-cases (reached ev.position ev.duration)) [
        | inl far ↦
            rw (there, far) (omega (arith, plays_in-kept track d ev.position evs some_track pass))
        | inr near ↦
            rw (there, near)
              (omega (
                arith,
                plays_in-uncounted track d ev.position evs (after track ev.position false)
                    some_track refl pass,
              ))
      ]

  -- A user, in whatever state, goes through a track, or as far as they like, without going back and
  -- without skipping it. It is counted once if they reach its threshold and their first event begins a
  -- play: the last one was of another track, or was not counted, or had come near its end before this
  -- event set in below the threshold. It is never counted otherwise.
  pub one_play :
      (track : ℕ) (d from : ℤ) (st : PlayState) (ev : Event) (evs : List Event)
      → track ≢ 0
      → IsPass track d from (ev ∷ evs)
      → plays_in tenths st (ev ∷ evs) ≡ one_if (begins track st ev && any is_reached (ev ∷ evs))
  unfolding plays_in
  one_play track d from st ev evs some_track (same, during, kept, le, pass) =
      elim (Bool-cases (begins track st ev)) [
        | inr stays ↦
            rw (decide_kept st track ev some_track same kept stays, stays)
              (omega (arith, plays_in-kept track d ev.position evs some_track pass))
        | inl begun ↦ elim (Bool-cases (reached ev.position ev.duration)) [
          | inl far ↦
              rw (decide_begun st track ev some_track same kept begun, begun, far)
                (omega (arith, plays_in-kept track d ev.position evs some_track pass))
          | inr near ↦
              rw (decide_begun st track ev some_track same kept begun, begun, near)
                (omega (
                  arith,
                  plays_in-uncounted track d ev.position evs (after track ev.position false)
                      some_track refl pass,
                ))
        ]
      ]
