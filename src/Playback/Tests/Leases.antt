-- ===== src/Playback/Tests/Leases.antt =====
-- Leases of the session of the tests.
use sound_dock.Base.{ℕ, ◌≡◌, refl, ◌≢◌, pos, true, false, none, some, List, [], ◌∷◌, ok, err, arith}
use sound_dock.Playback.Session.{
  Lease, RendererKind, OutputPref, Session, lease_conflict, bump_revision,
}
use sound_dock.Playback.Lease.{
  is_held_by, heartbeat, cas_acquire_browser, may_acquire, cas_release, claim_discord,
  grant_discord, granted_browser, claim_discord_renderer, acquire_browser_renderer,
}
use sound_dock.Playback.Lease.Fencing.{
  CasOp, AllAdvance, apply, run, fenced_after_loss, acquire_evicts,
}
use sound_dock.Playback.Tests.{desk, room}

-- Another tab acquires the lease, and the bot takes it over and releases it.
abbrev taken : List (ℕ × CasOp)
taken = (101, CasOp.acquire "phone" (pos 0) false) ∷ []

abbrev given : List (ℕ × CasOp)
given =
    (102, CasOp.claim "bot" (pos 7) true)
    ∷ (103, CasOp.release RendererKind.discord "bot" (pos 7))
    ∷ []

names_newer : AllAdvance given (run taken desk)
unfolding run apply cas_acquire_browser may_acquire
names_newer = (omega arith, (tt, tt))

lost : is_held_by (run taken desk) RendererKind.browser "tab" (pos 4) ≡ false
unfolding run apply cas_acquire_browser may_acquire
lost = refl

fenced_after_loss_example :
    (heartbeat 103 RendererKind.browser "tab" (pos 4) (run given (run taken desk))
      ≡ err lease_conflict)
    × (cas_release RendererKind.browser "tab" (pos 4) (run given (run taken desk))
        ≡ (run given (run taken desk), false))
fenced_after_loss_example =
    fenced_after_loss taken given 103 desk RendererKind.browser "tab" (pos 4) (tt, tt) names_newer
      refl lost

acquires :
    cas_acquire_browser 101 "phone" (pos 0) false desk
    ≡ ok (granted_browser 101 "phone" desk, pos 5)
unfolding cas_acquire_browser may_acquire
acquires = refl

acquire_evicts_example :
    (RendererKind.browser ≢ RendererKind.discord)
    × (is_held_by (granted_browser 101 "phone" desk) RendererKind.browser "phone" (pos 5) ≡ true)
    × (is_held_by (granted_browser 101 "phone" desk) RendererKind.browser "tab" (pos 4) ≡ false)
acquire_evicts_example =
    acquire_evicts 101 "phone" (pos 0) desk (granted_browser 101 "phone" desk) (pos 5)
      RendererKind.browser "tab" (pos 4) acquires refl

-- A bot holds the lease, and another bot claims it.
abbrev stage : Lease
stage = record {
  kind = RendererKind.discord;
  renderer = some "bot";
  generation = pos 2;
  heartbeat_at = none;
  output = OutputPref.discord;
}

claims :
    claim_discord 101 "bot2" (pos 3) false stage ≡ ok (grant_discord 101 "bot2" (pos 3) stage, true)
unfolding claim_discord
claims = refl

abbrev held : Session
held = bump_revision (record room { lease = granted_browser 101 "phone" desk })

acquires_session : acquire_browser_renderer 101 "phone" (pos 0) room ≡ ok (held, pos 5)
unfolding acquire_browser_renderer cas_acquire_browser may_acquire
acquires_session = refl

abbrev on_stage : Session
on_stage = bump_revision (record room { lease = grant_discord 101 "bot" (pos 7) desk })

claims_session : claim_discord_renderer 101 "bot" (pos 7) true room ≡ ok on_stage
unfolding claim_discord_renderer claim_discord
claims_session = refl
