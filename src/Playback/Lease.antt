-- ===== src/Playback/Lease.antt =====
-- internal/playback/lease.go and `SwitchRendererToBrowser` of bind.go: who renders the audio of a
-- session. Each function is one conditional UPDATE of the session's row; the row is there, and
-- `now` is the transaction's time.
pub mod Fencing
pub mod Takeover
use sound_dock.Base.{
  ℕ, ◌+◌, ◌-◌, ℤ, pos, ◌+ℤ◌, eq_ℤ, Bool, true, false, not, ◌&&◌, ◌||◌, Option, none, some, String,
  str_eq, ltb, leb, if◌then◌else◌, ok, err, ◌>>=◌, is_some,
}
use sound_dock.Playback.Session.{
  Lease, RendererKind, OutputPref, Session, Try, lease_conflict, bump_revision,
}

abbrev pub kind_eq : RendererKind → RendererKind → Bool
kind_eq RendererKind.idle RendererKind.idle = true
kind_eq RendererKind.browser RendererKind.browser = true
kind_eq RendererKind.discord RendererKind.discord = true
kind_eq _ _ = false

abbrev pub is_renderer : Option String → String → Bool
is_renderer none id = false
is_renderer (some r) id = str_eq r id

-- `renderer_kind=$2 AND renderer_id=$3 AND renderer_generation=$4`.
abbrev pub is_held_by : Lease → RendererKind → String → ℤ → Bool
is_held_by l kind id generation =
    kind_eq l.kind kind && is_renderer l.renderer id && eq_ℤ l.generation generation

-- The SET list of every release.
abbrev pub released : Lease → Lease
released l = record l {
  kind = RendererKind.idle;
  renderer = none;
  generation = l.generation +ℤ pos 1;
  heartbeat_at = none;
}

-- The SET list of a browser's acquisition.
abbrev pub granted_browser : ℕ → String → Lease → Lease
granted_browser now id l = record l {
  kind = RendererKind.browser;
  renderer = some id;
  generation = l.generation +ℤ pos 1;
  heartbeat_at = some now;
}

-- The WHERE clause of `casAcquireBrowser`, by who holds the lease.
unfoldable pub may_acquire : Lease → ℤ → Bool → Bool
may_acquire l expected steal_discord =
    if steal_discord
    then true
    else (if eq_ℤ expected (pos 0)
        then kind_eq l.kind RendererKind.idle || kind_eq l.kind RendererKind.browser
        else kind_eq l.kind RendererKind.idle
          || (kind_eq l.kind RendererKind.browser && eq_ℤ l.generation expected))

unfoldable pub cas_acquire_browser : ℕ → String → ℤ → Bool → Lease → Try (Lease × ℤ)
unfolding may_acquire
cas_acquire_browser now id expected steal_discord l =
    if may_acquire l expected steal_discord
    then ok (granted_browser now id l, l.generation +ℤ pos 1)
    else err lease_conflict

-- `renderer_heartbeat_at IS NULL OR renderer_heartbeat_at < now() - age`.
abbrev pub is_stale : ℕ → ℕ → Option ℕ → Bool
is_stale now age none = true
is_stale now age (some at) = ltb (at + age) now

-- `ReleaseStaleBrowserRenderer`, the age in whole seconds, and whether it released.
pub release_stale : ℕ → ℕ → Lease → Lease × Bool
release_stale now max_age l =
    let age = if ltb max_age 1 then 1 else max_age in
    if kind_eq l.kind RendererKind.browser && is_stale now age l.heartbeat_at
    then (released l, true)
    else (l, false)

-- `HeartbeatRenderer`.
pub heartbeat : ℕ → RendererKind → String → ℤ → Lease → Try Lease
heartbeat now kind id generation l =
    if is_held_by l kind id generation
    then ok (record l { heartbeat_at = some now })
    else err lease_conflict

pub cas_release : RendererKind → String → ℤ → Lease → Lease × Bool
cas_release kind id generation l =
    if is_held_by l kind id generation then (released l, true) else (l, false)

-- `casReleaseBrowserIfHeld`.
pub release_browser_if_held : Lease → Lease × Bool
release_browser_if_held l =
    if kind_eq l.kind RendererKind.browser then (released l, true) else (l, false)

abbrev pub reset_output : OutputPref → OutputPref
reset_output OutputPref.discord = OutputPref.browser
reset_output OutputPref.browser = OutputPref.browser

-- `casReleaseDiscordIfHeld`.
pub release_discord_if_held : Bool → Lease → Lease × Bool
release_discord_if_held reset l =
    if kind_eq l.kind RendererKind.discord
    then (if reset
        then (record (released l) { output = reset_output l.output }, true)
        else (released l, true))
    else (l, false)

-- The SET list of `ClaimDiscordRenderer` and of `casGrantDiscord`.
unfoldable pub grant_discord : ℕ → String → ℤ → Lease → Lease
grant_discord now id generation l = record {
  kind = RendererKind.discord;
  renderer = some id;
  generation = generation;
  heartbeat_at = some now;
  output = OutputPref.discord;
}

-- `curID`: the empty text for NULL.
abbrev pub held_id : Option String → String
held_id none = ""
held_id (some r) = r

-- `ClaimDiscordRenderer`, and whether the state revision is bumped.
unfoldable pub claim_discord : ℕ → String → ℤ → Bool → Lease → Try (Lease × Bool)
unfolding grant_discord
claim_discord now id generation steal_browser l =
    if kind_eq l.kind RendererKind.discord
      && (str_eq (held_id l.renderer) id && eq_ℤ l.generation generation)
    then ok (record l { heartbeat_at = some now }, false)
    else (if steal_browser || not (kind_eq l.kind RendererKind.browser)
        then ok (grant_discord now id generation l, true)
        else err lease_conflict)

-- `SwitchRendererToBrowser`.
pub switch_to_browser : ℕ → String → ℤ → Lease → Try Lease
unfolding release_discord_if_held cas_acquire_browser
switch_to_browser now id generation l =
    let free = (release_discord_if_held false l).0 in
    if not (eq_ℤ generation (pos 0))
    then ok (record {
      kind = RendererKind.browser;
      renderer = some id;
      generation = generation;
      heartbeat_at = some now;
      output = OutputPref.browser;
    })
    else (cas_acquire_browser now id (pos 0) true free >>= λ (got, _).
        ok (record got { output = OutputPref.browser }))

-- The transactions over the session: the row is written and its revision bumped.
unfoldable pub acquire_browser_renderer : ℕ → String → ℤ → Session → Try (Session × ℤ)
acquire_browser_renderer now id expected s =
    cas_acquire_browser now id expected false s.lease >>= λ (l, generation).
    ok (bump_revision (record s { lease = l }), generation)

pub release_renderer : RendererKind → String → ℤ → Session → Try Session
release_renderer kind id generation s =
    let (l, released_it) = cas_release kind id generation s.lease in
    if released_it then ok (bump_revision (record s { lease = l })) else err lease_conflict

unfoldable pub claim_discord_renderer : ℕ → String → ℤ → Bool → Session → Try Session
claim_discord_renderer now id generation steal_browser s =
    claim_discord now id generation steal_browser s.lease >>= λ (l, changed).
    ok (if changed then bump_revision (record s { lease = l }) else record s { lease = l })

pub switch_renderer_to_browser : ℕ → String → ℤ → Session → Try Session
switch_renderer_to_browser now id generation s =
    switch_to_browser now id generation s.lease >>= λ l. ok (bump_revision (record s { lease = l }))
