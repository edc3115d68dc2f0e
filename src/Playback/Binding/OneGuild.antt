-- ===== src/Playback/Binding/OneGuild.antt =====
-- A session plays in one guild at most (internal/playback/bind.go).
use sound_dock.Base.{
  ℕ, ℤ, ◌≡◌, Bool, false, not, ◌&&◌, ◌||◌, Option, none, some, List, [], ◌∷◌, String, str_eq, holds,
  ok, err, Apart,
}
use sound_dock.Playback.Session.{Try}
use sound_dock.Playback.Binding.{
  Runtime, Voice, BindResult, is_guild, bind_guild_session, bind_discord_renderer,
  unbind_discord_renderer,
}

abbrev pub same_guild : Runtime → Runtime → Bool
same_guild a b = str_eq a.guild b.guild

-- Two guilds play one session.
abbrev pub plays : Option ℕ → Option ℕ → Bool
plays none other = false
plays (some s) other = holds other s

abbrev pub shares : Runtime → Runtime → Bool
shares a b = plays a.session b.session

-- One row for a guild, and no two guilds with one session.
pub record Tidy (rows : List Runtime) : Type 0 where
  pub guilds : Apart same_guild rows
  pub sessions : Apart shares rows

-- The same, whatever the row of guild `g` plays.
abbrev rel_but : String → Runtime → Runtime → Bool
rel_but g a b = same_guild a b || (shares a b && (not (is_guild g a) && not (is_guild g b)))

-- A statement that keeps the guild of each row, and its session unless it clears it.
abbrev IsClearing : (Runtime → Runtime) → Type 0
IsClearing f = (r : Runtime) → ((f r).guild ≡ r.guild) × ((f r).session ≡ none)

-- A transaction that commits leaves the rows tidy; another one is rolled back.
abbrev IsTidy : Try (Voice × BindResult) → Type 0
IsTidy (err e) = Unit
IsTidy (ok (v, answer)) = Tidy v.runtimes

-- The requests of the bots, in any order; one that fails changes nothing.
pub data BindOp : Type 0 where
  bind : String → ℕ → String → ℤ → BindOp
  bind_renderer : ℕ → String → ℕ → String → ℤ → String → ℤ → BindOp
  unbind : String → ℤ → String → ℤ → BindOp

abbrev pub attempt : BindOp → Voice → Try (Voice × BindResult)
attempt (BindOp.bind g sid channel expected) v = bind_guild_session g sid channel expected v
attempt (BindOp.bind_renderer now g sid channel expected id generation) v =
    bind_discord_renderer now g sid channel expected id generation v
attempt (BindOp.unbind g expected id generation) v =
    unbind_discord_renderer g expected id generation v

abbrev pub committed : Try (Voice × BindResult) → Voice → Voice
committed (err e) v = v
committed (ok (w, answer)) v = w

unfoldable pub bind_all : List BindOp → Voice → Voice
bind_all [] v = v
bind_all (op ∷ ops) v = bind_all ops (committed (attempt op v) v)
