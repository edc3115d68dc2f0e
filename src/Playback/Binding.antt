-- ===== src/Playback/Binding.antt =====
-- internal/playback/bind.go: which session the bot of a Discord guild plays, as rows of
-- discord_voice_runtime beside the sessions. Each function is one transaction; `ReapOrphanPlaying`,
-- which stops forgotten web sessions after it, is not part of it. `now` is the transaction's time.
pub mod OneGuild
pub mod Fence
pub mod Grant
use Prim.Native.String.{compare}
use text.Mathlib.Text.{is_le}
use sound_dock.Base.{
  ℕ, ◌+◌, ℤ, pos, ◌+ℤ◌, eq_ℤ, Bool, true, false, not, ◌&&◌, ◌||◌, Option, none, some, List, [], ◌∷◌,
  ◌++◌, String, str_eq, ◌==◌, if◌then◌else◌, any, is_some, holds, Result, ok, err, ◌>>=◌, update,
}
use sound_dock.Playback.Session.{
  Session, RendererKind, OutputPref, Try, Lease, bind_conflict, no_rows, foreign_key, nil_uuid,
  bump_revision,
}
use sound_dock.Playback.Lease.{release_discord_if_held, cas_release, grant_discord, reset_output}

-- A row of discord_voice_runtime.
pub record Runtime : Type 0 where
  pub guild : String
  pub channel : Option String
  pub session : Option ℕ
  pub connected : Bool
  pub reason : Option String
  pub revision : ℤ

-- The runtimes, and the row of playback_sessions for each identifier.
pub record Voice : Type 0 where
  pub runtimes : List Runtime
  pub sessions : ℕ → Option Session

-- `BindResult`; a session without a row has the revision 0.
pub record BindResult : Type 0 where
  pub binding_revision : ℤ
  pub session_id : ℕ
  pub state_revision : ℕ
  pub released : List String

abbrev pub is_guild : String → Runtime → Bool
is_guild g r = str_eq r.guild g

abbrev pub find_guild : String → List Runtime → Option Runtime
find_guild g [] = none
find_guild g (r ∷ rows) = if is_guild g r then some r else find_guild g rows

-- INSERT … ON CONFLICT (guild_id) DO NOTHING.
abbrev pub ensure : Runtime → List Runtime → List Runtime
ensure new rows = if any (is_guild new.guild) rows then rows else rows ++ (new ∷ [])

-- `sort.Strings`.
abbrev pub insert_text : String → List String → List String
insert_text s [] = s ∷ []
insert_text s (t ∷ ts) =
    let rest = insert_text s ts in if is_le (compare s t) then s ∷ t ∷ ts else t ∷ rest

abbrev pub sort_texts : List String → List String
sort_texts [] = []
sort_texts (s ∷ ss) = insert_text s (sort_texts ss)

-- `releaseOtherGuilds`: the rows afterwards, and the guilds that were connected.
abbrev pub is_elsewhere : ℕ → String → Runtime → Bool
is_elsewhere sid g r = holds r.session sid && not (is_guild g r)

abbrev pub moved_away : Runtime → Runtime
moved_away r = record r { session = none; revision = r.revision +ℤ pos 1; reason = some "moved" }

abbrev pub live_guilds : (Runtime → Bool) → List Runtime → List String
live_guilds p [] = []
live_guilds p (r ∷ rows) =
    let rest = live_guilds p rows in if p r && r.connected then r.guild ∷ rest else rest

unfoldable pub release_other_guilds : ℕ → String → List Runtime → List Runtime
release_other_guilds sid g rows = update (is_elsewhere sid g) moved_away rows

abbrev pub released_guilds : ℕ → String → List Runtime → List String
released_guilds sid g rows = sort_texts (live_guilds (is_elsewhere sid g) rows)

-- `sameVoiceChannel`.
abbrev pub same_voice_channel : Option String → String → Bool
same_voice_channel none want = str_eq want ""
same_voice_channel (some c) want = str_eq c want

-- `sessionStateRevision`.
abbrev pub revision_of : Option Session → ℕ
revision_of none = 0
revision_of (some s) = s.revision

abbrev pub id_or_nil : Option ℕ → ℕ
id_or_nil none = nil_uuid
id_or_nil (some id) = id

-- `lockSessionRows`: only whether the rows are there matters.
abbrev pub locks : Voice → ℕ → Bool
locks v id = id == nil_uuid || is_some (v.sessions id)

-- An UPDATE of one session's row.
abbrev pub change : ℕ → (Session → Session) → (ℕ → Option Session) → ℕ → Option Session
change id f sessions j =
    if j == id then elim (sessions j) [ none ↦ none | some s ↦ some (f s) ] else sessions j

-- `casReleaseDiscordIfHeld` with a reset output, and `bumpRevision` where it released.
abbrev pub bumped_if : Session → Lease × Bool → Session
bumped_if s (l, true) = bump_revision (record s { lease = l })
bumped_if s (l, false) = record s { lease = l }

abbrev pub drop_discord : Session → Session
drop_discord s = bumped_if s (release_discord_if_held true s.lease)

-- The session that the guild leaves for another one.
abbrev pub leave_old : ℕ → ℕ → (ℕ → Option Session) → ℕ → Option Session
leave_old old sid sessions =
    if not (old == nil_uuid) && not (old == sid) then change old drop_discord sessions else sessions

abbrev pub bind_row : ℕ → String → Runtime → Runtime
bind_row sid channel r = record r {
  revision = r.revision +ℤ pos 1;
  session = some sid;
  channel = some channel;
}

abbrev fresh_row : String → Runtime
fresh_row g = record {
  guild = g;
  channel = none;
  session = none;
  connected = false;
  reason = none;
  revision = pos 0;
}

-- `expected != 0 && expected != curRev`.
abbrev pub is_outdated : ℤ → Runtime → Bool
is_outdated expected r = not (eq_ℤ expected (pos 0)) && not (eq_ℤ expected r.revision)

-- The row of the guild; the INSERT before it has put it there.
abbrev pub row_of : String → List Runtime → Try Runtime
row_of g rows = elim (find_guild g rows) [ none ↦ err no_rows | some r ↦ ok r ]

abbrev pub guard : Bool → Try (Unit {0}) → Try (Unit {0})
guard true failure = failure
guard false failure = ok tt

abbrev pub lock_both : ℕ → ℕ → Voice → Try (Unit {0})
lock_both sid old v = guard (not (locks v sid && locks v old)) (err no_rows) >>= λ u.
    guard (not (is_some (v.sessions sid))) (err foreign_key)

-- `BindGuildSession`, of a row whose revision is the expected one.
abbrev pub bind_found : String → ℕ → String → Runtime → Voice → Try (Voice × BindResult)
bind_found g sid channel r v =
    let rows = release_other_guilds sid g v.runtimes in
    let live = released_guilds sid g v.runtimes in
    if holds r.session sid && same_voice_channel r.channel channel
    then ok (
      record v { runtimes = rows },
      record {
        binding_revision = r.revision;
        session_id = sid;
        state_revision = revision_of (v.sessions sid);
        released = live;
      },
    )
    else (lock_both sid (id_or_nil r.session) v >>= λ u.
        let sessions = leave_old (id_or_nil r.session) sid v.sessions in
        ok (
          record {
            runtimes = update (is_guild g) (bind_row sid channel) rows;
            sessions = sessions;
          },
          record {
            binding_revision = r.revision +ℤ pos 1;
            session_id = sid;
            state_revision = revision_of (sessions sid);
            released = live;
          },
        ))

abbrev pub checked : ℤ → Runtime → Try (Voice × BindResult) → Try (Voice × BindResult)
checked expected r rest = if is_outdated expected r then err bind_conflict else rest

unfoldable pub bind_guild_session : String → ℕ → String → ℤ → Voice → Try (Voice × BindResult)
bind_guild_session g sid channel expected v =
    let w = record v { runtimes = ensure (fresh_row g) v.runtimes } in
    row_of g w.runtimes >>= λ r. checked expected r (bind_found g sid channel r w)

-- `BindDiscordRenderer`; the first INSERT names the session, which must be there.
abbrev pub bound_row : String → ℕ → String → Runtime
bound_row g sid channel = record {
  guild = g;
  channel = some channel;
  session = some sid;
  connected = false;
  reason = some "";
  revision = pos 0;
}

abbrev pub granted : ℕ → String → ℤ → Session → Session
granted now id generation s =
    bump_revision (record s { lease = grant_discord now id generation s.lease })

abbrev pub bind_discord_found :
    ℕ → String → ℕ → String → String → ℤ → Runtime → Voice → Try (Voice × BindResult)
bind_discord_found now g sid channel id generation r v =
    lock_both sid (id_or_nil r.session) v >>= λ u.
    let rows = update (is_guild g) (bind_row sid channel) v.runtimes in
    let sessions =
      change sid (granted now id generation) (leave_old (id_or_nil r.session) sid v.sessions) in
    ok (
      record { runtimes = release_other_guilds sid g rows; sessions = sessions },
      record {
        binding_revision = r.revision +ℤ pos 1;
        session_id = sid;
        state_revision = revision_of (sessions sid);
        released = released_guilds sid g rows;
      },
    )

unfoldable pub bind_discord_renderer :
    ℕ → String → ℕ → String → ℤ → String → ℤ → Voice → Try (Voice × BindResult)
bind_discord_renderer now g sid channel expected id generation v =
    let w = record v { runtimes = ensure (bound_row g sid channel) v.runtimes } in
    guard (not (any (is_guild g) v.runtimes) && not (is_some (v.sessions sid))) (err foreign_key)
    >>= λ u. row_of g w.runtimes >>= λ r.
        checked expected r (bind_discord_found now g sid channel id generation r w)

-- `UnbindDiscordRenderer`.
abbrev pub unbound_row : Runtime → Runtime
unbound_row r = record r {
  revision = r.revision +ℤ pos 1;
  session = none;
  connected = false;
  channel = none;
  reason = some "unbind";
}

abbrev pub reset_if : Session → Lease × Bool → Session
reset_if s (l, true) =
    bump_revision (record s { lease = record l { output = reset_output l.output } })
reset_if s (l, false) = record s { lease = l }

-- The lease that the bot gives up: the one it names, or any of Discord where it names none.
abbrev pub release_bot : String → ℤ → Session → Session
release_bot id generation s =
    if not (str_eq id "") && not (eq_ℤ generation (pos 0))
    then reset_if s (cas_release RendererKind.discord id generation s.lease)
    else drop_discord s

abbrev pub unbind_found : String → String → ℤ → Runtime → Voice → Try (Voice × BindResult)
unbind_found g id generation r v =
    let sid = id_or_nil r.session in
    let sessions =
      if sid == nil_uuid then v.sessions else change sid (release_bot id generation) v.sessions in
    ok (
      record { runtimes = update (is_guild g) unbound_row v.runtimes; sessions = sessions },
      record {
        binding_revision = r.revision +ℤ pos 1;
        session_id = sid;
        state_revision = if sid == nil_uuid then 0 else revision_of (sessions sid);
        released = [];
      },
    )

unfoldable pub unbind_discord_renderer : String → ℤ → String → ℤ → Voice → Try (Voice × BindResult)
unbind_discord_renderer g expected id generation v =
    let w = record v { runtimes = ensure (fresh_row g) v.runtimes } in
    row_of g w.runtimes >>= λ r. checked expected r (unbind_found g id generation r w)
