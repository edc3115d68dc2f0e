-- ===== src/Playback/Engine/Reachable.antt =====
-- Every sequence of requests keeps a session well formed (internal/playback).
use sound_dock.Playback.Engine.Kept.{
  on_row_of, answered, keeps-WellFormed, on_row_of-WellFormed, add-WellFormed, drop-WellFormed,
  replace-WellFormed, set_position-WellFormed, acquired-WellFormed,
}
use sound_dock.Base.{
  ℕ, ◌≡◌, refl, sym, subst, ap, ◌≢◌, ℤ, Bool, true, none, String, List, [], inl, inr,
}
use sound_dock.Playback.Session.{Dock, Playhead, Lease, Modes, RendererKind}
use sound_dock.Playback.Extra.{Fields}
use sound_dock.Playback.Env.{Env}
use sound_dock.Playback.Lease.{
  acquire_browser_renderer, release_renderer, claim_discord_renderer, switch_renderer_to_browser,
}
use sound_dock.Playback.Cursor.WellFormed.{WellFormed}
use sound_dock.Playback.Control.{Action}
use sound_dock.Playback.Control.WellFormed.{AddsBehindRow}
use sound_dock.Playback.Command.{control, normalize, filled}
use sound_dock.Playback.Command.Revision.{control-WellFormed}
use sound_dock.Playback.Lease.Takeover.{switch_takes, release_same, claim_same}
use sound_dock.Playback.Position.{checkpoint_playhead, persist_position}
use sound_dock.Playback.Position.Writes.{checkpoint_cases, persist_same}
use sound_dock.Playback.Engine.{replace, add, drop, set_position}

-- A new session: no track, an empty queue.
abbrev pub created : Playhead → Lease → Modes → Dock
created playhead lease modes = record {
  session = record {
    current_index = 0;
    current_track = none;
    playhead = playhead;
    lease = lease;
    modes = modes;
    revision = 0;
  };
  items = [];
  receipts = [];
  next_uuid = 1;
}

module _ (digest : Action → Fields → ℕ) (fill : Dock → Dock) where
  -- The requests on a session. A request that adds behind the current row meets a queue with a row.
  pub data Step (d : Dock) : Dock → Type 0 where
    command :
        (env : Env) (action : Action) (raw : Fields)
        → AddsBehindRow action (normalize action raw) (filled digest fill action d)
        → Step d (control digest fill env action raw d).0
    replaced : (env : Env) (ts : List ℕ) (start : ℤ) → Step d (replace env ts start d).0
    added :
        (env : Env) (ts : List ℕ) (ahead : Bool)
        → (ahead ≡ true → d.items ≢ [])
        → Step d (add env ts ahead d).0
    dropped : (env : Env) (gone : List ℕ) → Step d (drop env gone d)
    positioned : (ms : ℤ) → Step d (record d { session = set_position ms d.session })
    persisted :
        (now instance : ℕ) (ms : ℤ)
        → Step d (record d { session = (persist_position now instance ms d.session).0 })
    checkpointed :
        (now instance : ℕ) (ms : ℤ)
        → Step d (on_row_of d (checkpoint_playhead now instance ms d.session))
    acquired :
        (now : ℕ) (id : String) (expected : ℤ)
        → Step d (on_row_of d (answered (acquire_browser_renderer now id expected d.session)))
    released :
        (kind : RendererKind) (id : String) (generation : ℤ)
        → Step d (on_row_of d (release_renderer kind id generation d.session))
    claimed :
        (now : ℕ) (id : String) (generation : ℤ) (steal : Bool)
        → Step d (on_row_of d (claim_discord_renderer now id generation steal d.session))
    switched :
        (now : ℕ) (id : String) (generation : ℤ)
        → Step d (on_row_of d (switch_renderer_to_browser now id generation d.session))

  pub data Reachable : Dock → Type 0 where
    new :
        (playhead : Playhead) (lease : Lease) (modes : Modes)
        → Reachable (created playhead lease modes)
    then_step : {d e : Dock} → Reachable d → Step d e → Reachable e

module _ (digest : Action → Fields → ℕ) (fill : Dock → Dock) where
  Step-WellFormed :
      (d : Dock) {e : Dock}
      → ((d : Dock) → WellFormed d → WellFormed (fill d))
      → Step digest fill d e
      → WellFormed d
      → WellFormed e
  Step-WellFormed d f (command env action raw a) w =
      control-WellFormed digest fill env action raw d f w a
  Step-WellFormed d f (replaced env ts from) w = replace-WellFormed env ts from d w
  Step-WellFormed d f (added env ts ahead n) w = add-WellFormed env ts ahead d n w
  Step-WellFormed d f (dropped env gone) w = drop-WellFormed env gone d w
  Step-WellFormed d f (positioned ms) w = set_position-WellFormed ms d w
  Step-WellFormed d f (persisted now instance ms) w =
      let (i, t) = persist_same now instance ms d.session in
      keeps-WellFormed d (persist_position now instance ms d.session).0 i t w
  Step-WellFormed d f (checkpointed now instance ms) w =
      on_row_of-WellFormed d (checkpoint_playhead now instance ms d.session)
        (λ s e. elim (checkpoint_cases now instance ms d.session e) [
          | inl same ↦ (ap (λ x. x.current_index) same, ap (λ x. x.current_track) same)
          | inr (moved, own, near) ↦
              (ap (λ x. x.current_index) moved, ap (λ x. x.current_track) moved)
        ])
        w
  Step-WellFormed d f (acquired now id expected) w =
      acquired-WellFormed now id expected d (acquire_browser_renderer now id expected d.session)
        refl w
  Step-WellFormed d f (released kind id generation) w =
      on_row_of-WellFormed d (release_renderer kind id generation d.session)
        (λ s e. let (i, t, p, m) = release_same kind id generation d.session s e in (i, t)) w
  Step-WellFormed d f (claimed now id generation steal) w =
      on_row_of-WellFormed d (claim_discord_renderer now id generation steal d.session)
        (λ s e. let (i, t, p, m) = claim_same now id generation steal d.session s e in (i, t)) w
  Step-WellFormed d f (switched now id generation) w =
      let (s, done, held, output, counted, (i, t, p, m)) =
        switch_takes now id generation d.session in
      subst (λ m. WellFormed (on_row_of d m)) (sym done) (keeps-WellFormed d s i t w)

  -- Whatever the requests on a session and their order, from its creation on, it is well formed: the
  -- positions of its queue are 0, 1, 2, … and the current track is the one at the current index (none
  -- and 0 if there is none). The refill must keep sessions well formed; a request that adds tracks
  -- behind the current row comes only when the queue has a row.
  pub Reachable-WellFormed :
      {d : Dock}
      → ((d : Dock) → WellFormed d → WellFormed (fill d))
      → Reachable digest fill d
      → WellFormed d
  Reachable-WellFormed f (new playhead lease modes) = record { numbered = tt; cursor = refl }
  Reachable-WellFormed f (then_step {d} before s) =
      Step-WellFormed d f s (Reachable-WellFormed f before)
