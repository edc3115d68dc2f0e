-- ===== src/Playback/Lease/Takeover.antt =====
-- What the transactions over a session's lease leave (internal/playback/lease.go, and
-- `SwitchRendererToBrowser` of bind.go).
use text.Mathlib.TextEquality.{eq_iff}
use text.Mathlib.TextPositions.{eq_refl}
use sound_dock.Base.{
  ℕ, ◌+◌, ◌≡◌, refl, ℤ, pos, ◌+ℤ◌, eq_ℤ, eq_ℤ-refl, Bool, true, false, Option, none, some, String,
  ok, err, arith, Bool-cases, ◌&&◌, str_eq, sym, ◌⊎◌, inl, inr, ◌≢◌,
}
use sound_dock.Playback.Session.{
  Lease, RendererKind, OutputPref, Session, lease_conflict, bump_revision,
}
use sound_dock.Playback.Lease.{
  is_held_by, kind_eq, acquire_browser_renderer, release_renderer, claim_discord_renderer,
  switch_renderer_to_browser, switch_to_browser, release_discord_if_held, cas_acquire_browser,
  may_acquire, cas_release, claim_discord, grant_discord, granted_browser, released, held_id,
}

-- Everything of a session but its lease and its revision.
abbrev pub SameMusic : Session → Session → Type 0
SameMusic s s' =
    (s'.current_index ≡ s.current_index)
    × (s'.current_track ≡ s.current_track)
    × (s'.playhead ≡ s.playhead)
    × (s'.modes ≡ s.modes)

-- Switching the audio to a browser always succeeds, whoever renders: the browser then holds the lease
-- and is the output, the revision is one more, and the cursor, the playhead and the modes stay.
pub switch_takes :
    (now : ℕ) (id : String) (generation : ℤ) (s : Session)
    → (s' : Session) × (switch_renderer_to_browser now id generation s ≡ ok s')
      × (is_held_by s'.lease RendererKind.browser id s'.lease.generation ≡ true)
      × (s'.lease.output ≡ OutputPref.browser)
      × (s'.revision ≡ s.revision + 1)
      × SameMusic s s'
unfolding switch_renderer_to_browser switch_to_browser release_discord_if_held cas_acquire_browser
    may_acquire
switch_takes now id generation s = elim (Bool-cases (eq_ℤ generation (pos 0))) [
  | inl e ↦
      let free = (release_discord_if_held false s.lease).0 in
      let l = record (granted_browser now id free) { output = OutputPref.browser } in
      (
        bump_revision (record s { lease = l }),
        rw e refl,
        ground (arith, eq_refl id, eq_ℤ-refl (free.generation +ℤ pos 1)),
        refl,
        refl,
        (refl, refl, refl, refl),
      )
  | inr e ↦
      let l : Lease = record {
        kind = RendererKind.browser;
        renderer = some id;
        generation = generation;
        heartbeat_at = some now;
        output = OutputPref.browser;
      } in
      (
        bump_revision (record s { lease = l }),
        rw e refl,
        ground (arith, eq_refl id, eq_ℤ-refl generation),
        refl,
        refl,
        (refl, refl, refl, refl),
      )
]

pub acquired :
    (now : ℕ) (id : String) (expected : ℤ) (s s' : Session) (generation : ℤ)
    → acquire_browser_renderer now id expected s ≡ ok (s', generation)
    → (is_held_by s'.lease RendererKind.browser id generation ≡ true)
      × (s'.lease.generation ≡ s.lease.generation +ℤ pos 1)
      × (s'.revision ≡ s.revision + 1)
      × SameMusic s s'
unfolding acquire_browser_renderer cas_acquire_browser
acquired now id expected s s' generation e =
    ground (arith, eq_refl id, eq_ℤ-refl (s.lease.generation +ℤ pos 1))

-- A browser that acquired the lease can release it, under the generation it was answered: the session is then
-- without a renderer, its generation and its revision two more than before the acquisition, and its
-- cursor, playhead and modes those of before; a second release is a conflict.
pub acquire_then_release :
    (now : ℕ) (id : String) (expected : ℤ) (s s' : Session) (generation : ℤ)
    → acquire_browser_renderer now id expected s ≡ ok (s', generation)
    → (s'' : Session) × (release_renderer RendererKind.browser id generation s' ≡ ok s'')
      × (s''.lease.kind ≡ RendererKind.idle)
      × (s''.lease.generation ≡ s.lease.generation +ℤ pos 1 +ℤ pos 1)
      × (s''.revision ≡ s.revision + 2)
      × SameMusic s s''
      × (release_renderer RendererKind.browser id generation s'' ≡ err lease_conflict)
unfolding acquire_browser_renderer release_renderer cas_acquire_browser may_acquire cas_release
acquire_then_release now id expected s s' generation e =
    let held = acquired now id expected s s' generation e in
    let s'' = bump_revision (record s' { lease = released s'.lease }) in
    (
      s'',
      rw held.0 refl,
      refl,
      ground (arith, held),
      ground (arith, held),
      ground (arith, held),
      refl,
    )

-- The first test of `ClaimDiscordRenderer`.
abbrev renews : String → ℤ → Lease → Bool
renews id generation l =
    kind_eq l.kind RendererKind.discord
    && (str_eq (held_id l.renderer) id && eq_ℤ l.generation generation)

renews-held :
    (id : String) (generation : ℤ) (l : Lease) (was : Option String)
    → id ≢ ""
    → l.renderer ≡ was
    → renews id generation l ≡ true
    → is_held_by l RendererKind.discord id generation ≡ true
renews-held id generation l none named e h = absurd (named (sym ((eq_iff "" id).0 (ground arith))))
renews-held id generation l (some was) named e h = ground arith

-- A claim for Discord that succeeds leaves Discord holding the lease under the claimed id and
-- generation. The revision stays if Discord held it so before; otherwise it is one more and Discord is
-- the output. The cursor, the playhead and the modes stay.
pub claim_revision :
    (now : ℕ) (id : String) (generation : ℤ) (steal : Bool) (s s' : Session)
    → id ≢ ""
    → claim_discord_renderer now id generation steal s ≡ ok s'
    → (is_held_by s'.lease RendererKind.discord id generation ≡ true)
      × (((is_held_by s.lease RendererKind.discord id generation ≡ true)
            × (s'.revision ≡ s.revision))
          ⊎ ((s'.revision ≡ s.revision + 1) × (s'.lease.output ≡ OutputPref.discord)))
      × SameMusic s s'
unfolding claim_discord_renderer claim_discord grant_discord
claim_revision now id generation steal s s' named e = (
  ground (
    arith,
    eq_refl id,
    eq_ℤ-refl generation,
    renews-held id generation s.lease s.lease.renderer named refl,
  ),
  elim (Bool-cases (renews id generation s.lease)) [
    | inl same ↦
        inl (renews-held id generation s.lease s.lease.renderer named refl same, ground arith)
    | inr other ↦ inr (ground arith, ground arith)
  ],
  ground arith,
)

pub release_same :
    (kind : RendererKind) (id : String) (generation : ℤ) (s s' : Session)
    → release_renderer kind id generation s ≡ ok s'
    → SameMusic s s'
unfolding release_renderer cas_release
release_same kind id generation s s' e = ground arith

pub claim_same :
    (now : ℕ) (id : String) (generation : ℤ) (steal : Bool) (s s' : Session)
    → claim_discord_renderer now id generation steal s ≡ ok s'
    → SameMusic s s'
unfolding claim_discord_renderer claim_discord grant_discord
claim_same now id generation steal s s' e = ground arith
