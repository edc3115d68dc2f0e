-- ===== src/Playback/Tests/Bindings.antt =====
-- Two guilds that want one session.
use sound_dock.Base.{
  ℕ, ◌+◌, ℤ, pos, ◌≡◌, refl, false, true, none, some, Option, [], ◌∷◌, String, ok, err, ◌==◌,
  if◌then◌else◌, update,
}
use sound_dock.Playback.Session.{Session, RendererKind, OutputPref, bind_conflict}
use sound_dock.Playback.Lease.{is_held_by}
use sound_dock.Playback.Binding.{
  Runtime, Voice, BindResult, bind_guild_session, bind_discord_renderer, release_other_guilds,
  granted, change,
}
use sound_dock.Playback.Binding.OneGuild.{BindOp, attempt, bind_all}
use sound_dock.Playback.Binding.Fence.{stale_refused}
use sound_dock.Playback.Binding.Grant.{bind_discord_grants}
use sound_dock.Playback.Tests.{room}

-- Session 9 is there, and no guild.
abbrev quiet : Voice
quiet = record { runtimes = []; sessions = λ id. if id == 9 then some room else none }

abbrev blue : BindOp
blue = BindOp.bind "blue" 9 "lounge" (pos 0)

abbrev red : BindOp
red = BindOp.bind_renderer 50 "red" 9 "stage" (pos 0) "bot" (pos 3)

-- The row of a guild that plays the session.
abbrev in_guild : String → String → Option ℕ → ℤ → Option String → Runtime
in_guild g channel session revision reason = record {
  guild = g;
  channel = some channel;
  session = session;
  connected = false;
  reason = reason;
  revision = revision;
}

-- The later guild has the session.
moved :
    (bind_all (blue ∷ red ∷ []) quiet).runtimes
    ≡ in_guild "blue" "lounge" none (pos 2) (some "moved")
      ∷ in_guild "red" "stage" (some 9) (pos 1) (some "")
      ∷ []
unfolding bind_all bind_guild_session bind_discord_renderer release_other_guilds update
moved = refl

abbrev bound : Voice
bound = record quiet { runtimes = in_guild "blue" "lounge" (some 9) (pos 1) none ∷ [] }

abbrev bound_answer : BindResult
bound_answer = record {
  binding_revision = pos 1;
  session_id = 9;
  state_revision = room.revision;
  released = [];
}

binds : attempt blue quiet ≡ ok (bound, bound_answer)
unfolding bind_guild_session release_other_guilds update
binds = refl

stale_refused_example :
    attempt (BindOp.unbind "blue" (pos 7) "bot" (pos 3)) bound ≡ err bind_conflict
stale_refused_example =
    stale_refused blue (BindOp.unbind "blue" (pos 7) "bot" (pos 3)) quiet bound bound_answer binds
      refl refl refl

abbrev granted_room : Session
granted_room = granted 50 "bot" (pos 3) room

abbrev on_stage : Voice
on_stage = record {
  runtimes = in_guild "red" "stage" (some 9) (pos 1) (some "") ∷ [];
  sessions = change 9 (granted 50 "bot" (pos 3)) quiet.sessions;
}

abbrev stage_answer : BindResult
stage_answer = record {
  binding_revision = pos 1;
  session_id = 9;
  state_revision = room.revision + 1;
  released = [];
}

grants :
    bind_discord_renderer 50 "red" 9 "stage" (pos 0) "bot" (pos 3) quiet
    ≡ ok (on_stage, stage_answer)
unfolding bind_discord_renderer release_other_guilds update
grants = refl

bind_discord_grants_example :
    (s : Session) × (on_stage.sessions 9 ≡ some s)
    × (is_held_by s.lease RendererKind.discord "bot" (pos 3) ≡ true)
    × (s.lease.output ≡ OutputPref.discord)
    × (stage_answer.state_revision ≡ s.revision)
bind_discord_grants_example =
    bind_discord_grants 50 "red" 9 "stage" (pos 0) "bot" (pos 3) quiet on_stage stage_answer grants
