-- ===== src/Playback/Command/Revision.antt =====
-- What a command leaves of a session, and the revision by which undos are told apart
-- (`Engine.Control` of internal/playback/control.go).
use sound_dock.Base.{
  ℕ, ◌+◌, ◌≡◌, refl, sym, ap, ◌∙◌, subst, inl, inr, pos, Bool, true, false, Option, none, some,
  String, List, if◌then◌else◌, ok, err, arith,
}
use sound_dock.Playback.Session.{Dock, Receipt, Try, Error, undo_stale}
use sound_dock.Playback.Extra.{Fields}
use sound_dock.Playback.Env.{Env}
use sound_dock.Playback.Cursor.WellFormed.{WellFormed}
use sound_dock.Playback.Control.{Action, control_tx}
use sound_dock.Playback.Control.Frame.{control_tx-Frames}
use sound_dock.Playback.Control.WellFormed.{control_tx-WellFormed, AddsBehindRow}
use sound_dock.Playback.Command.{
  Reply, normalize, without_id, command_id, load_receipt, with_receipt, bumped, filled, control,
  is_empty_id, finish, refills, answer,
}
use sound_dock.Playback.Undo.{undo_generation}
use sound_dock.Playback.Control.Generation.{undo_generation-eq, undo-stale}
use sound_dock.Playback.Command.Replay.{Ended, answer-Ended}

with_receipt-WellFormed :
    (c : String) (hash : ℕ) (undo : Option (ℕ × List _)) (d : Dock)
    → WellFormed d
    → WellFormed (with_receipt c hash undo d)
with_receipt-WellFormed c hash undo d w = ground arith

bumped-WellFormed : (b : Bool) (d : Dock) → WellFormed d → WellFormed (bumped b d)
bumped-WellFormed true d w = record { numbered = w.numbered; cursor = w.cursor }
bumped-WellFormed false d w = w

Ended-WellFormed :
    (env : Env) (action : Action) (extra : Fields) (no_id : Bool) (c : String) (hash : ℕ) (d : Dock)
    (found : Option Receipt) (d' : Dock) (r : Try Reply)
    → WellFormed d
    → AddsBehindRow action extra d
    → Ended no_id c hash d found (control_tx env action extra d) d' r
    → WellFormed d'
Ended-WellFormed env action extra no_id c hash d found d' r w a (inl (same, n, x)) =
    subst WellFormed (sym same) w
Ended-WellFormed env action extra no_id c hash d found d' r w a (inr (inl (same, _))) =
    subst WellFormed (sym same) w
Ended-WellFormed env action extra no_id c hash d found d' r w a (inr (inr (o, ran, same, _))) =
    subst WellFormed (sym same) (
      with_receipt-WellFormed c hash _ (bumped o.mutated o.dock)
        (bumped-WellFormed o.mutated o.dock (control_tx-WellFormed env action extra d w a ran)))

module _ (digest : Action → Fields → ℕ) (fill : Dock → Dock) where
  control-Ended :
      (env : Env) (action : Action) (raw : Fields) (d : Dock) {d₁ : Dock} {r : Try Reply}
      → control digest fill env action raw d ≡ (d₁, r)
      → let start = filled digest fill action d in
        Ended
          (is_empty_id (command_id (normalize action raw)))
          (command_id (normalize action raw))
          (digest action (without_id (normalize action raw)))
          start
          (load_receipt (command_id (normalize action raw)) start.receipts)
          (control_tx env action (normalize action raw) start)
          d₁
          r
  unfolding control
  control-Ended env action raw d h =
      let start = filled digest fill action d in
      let extra = normalize action raw in
      let c = command_id extra in
      let hash = digest action (without_id extra) in
      let m = control_tx env action extra start in
      let found = load_receipt c start.receipts in
      subst (λ (x : Dock × Try Reply). Ended (is_empty_id c) c hash start found m x.0 x.1) h
        (answer-Ended (is_empty_id c) c hash start found m)

  filled-WellFormed :
      (b : Bool) (d : Dock)
      → ((d : Dock) → WellFormed d → WellFormed (fill d))
      → WellFormed d
      → WellFormed (if b then fill d else d)
  filled-WellFormed true d f w = f d w
  filled-WellFormed false d f w = w

  -- A command on a well-formed session leaves it well formed, whatever the action, its extras and the
  -- result. The refill must keep sessions well formed, and a command that adds tracks behind the
  -- current row must not meet an empty queue.
  pub control-WellFormed :
      (env : Env) (action : Action) (raw : Fields) (d : Dock)
      → ((d : Dock) → WellFormed d → WellFormed (fill d))
      → WellFormed d
      → AddsBehindRow action (normalize action raw) (filled digest fill action d)
      → WellFormed (control digest fill env action raw d).0
  control-WellFormed env action raw d f w a =
      Ended-WellFormed env action (normalize action raw) _ _ _ (filled digest fill action d) _ _ _
        (filled-WellFormed (refills action) d f w) a (control-Ended env action raw d refl)

  -- A command that ends in an error leaves the session, its queue and its receipts as they were, but
  -- for the refill that a skip or a next begins with.
  pub control_error :
      (env : Env) (action : Action) (raw : Fields) (d : Dock) {d₁ : Dock} {e : Error}
      → control digest fill env action raw d ≡ (d₁, err e)
      → d₁ ≡ filled digest fill action d
  control_error env action raw d h = elim (control-Ended env action raw d h) [
    | inl (same, n, x) ↦ same
    | inr (inl (same, x)) ↦ same
    | inr (inr (o, ran, same, replied)) ↦ cc
  ]

-- The revision after a transaction: one more if the action changed something.
with_receipt-revision :
    (c : String) (hash : ℕ) (undo : Option (ℕ × List _)) (d : Dock)
    → (with_receipt c hash undo d).session.revision ≡ d.session.revision
with_receipt-revision c hash undo d = ground arith

bumped-revision :
    (b : Bool) (d : Dock)
    → (bumped b d).session.revision ≡ (if b then d.session.revision + 1 else d.session.revision)
bumped-revision true d = refl
bumped-revision false d = refl

run-revision :
    (c : String) (hash : ℕ) (undo : Option (ℕ × List _)) (b : Bool) (d d' : Dock)
    → b ≡ true
    → d' ≡ with_receipt c hash undo (bumped b d)
    → d'.session.revision ≡ d.session.revision + 1
run-revision c hash undo b d d' e same =
    ground (arith, with_receipt-revision c hash undo (bumped b d), bumped-revision b d)

answer-none :
    (no_id : Bool) (found : Option Receipt) (hash : ℕ) (d : Dock) (run : Dock × Try Reply)
    → found ≡ none
    → answer no_id found hash d run ≡ run
answer-none true found hash d run e = refl
answer-none false none hash d run e = refl
answer-none false (some old) hash d run e = cc

Ended-undo :
    (env : Env) (raw : Fields) (no_id : Bool) (c : String) (hash : ℕ) (d : Dock)
    (found : Option Receipt) (d' : Dock) (r : Reply)
    → found ≡ none
    → Ended no_id c hash d found (control_tx env Action.undo raw d) d' (ok r)
    → (undo_generation raw ≡ some (pos d.session.revision))
      × (d'.session.revision ≡ d.session.revision + 1)
Ended-undo env raw no_id c hash d found d' r e (inl (same, n, (old, there, m, x))) = cc
Ended-undo env raw no_id c hash d found d' r e (inr (inl (same, (x, failed)))) = cc
Ended-undo env raw no_id c hash d found d' r e (inr (inr (o, ran, same, replied))) =
    let (named, changed) = undo_generation-eq env raw d ran in
    (
      named,
      run-revision c hash _ o.mutated o.dock d' changed same
          ∙ ap (λ n. n + 1) (control_tx-Frames env Action.undo raw d ran).0,
    )

module _ (digest : Action → Fields → ℕ) (fill : Dock → Dock) where
  -- An undo works once: after a run of it succeeded, any undo that names the same generation, sent
  -- as a new command, is refused as stale and changes nothing.
  pub undo_once :
      (env env' : Env) (raw raw' : Fields) (d : Dock) {d₁ : Dock} {r : Reply}
      → load_receipt (command_id raw) d.receipts ≡ none
      → control digest fill env Action.undo raw d ≡ (d₁, ok r)
      → undo_generation raw' ≡ undo_generation raw
      → load_receipt (command_id raw') d₁.receipts ≡ none
      → control digest fill env' Action.undo raw' d₁ ≡ (d₁, err undo_stale)
  unfolding control normalize
  undo_once env env' raw raw' d {d₁} {r} new h same new' =
      let (named, next) =
        Ended-undo env raw _ _ _ d _ d₁ r new (control-Ended digest fill env Action.undo raw d h) in
      answer-none _ _ _ d₁ _ new'
      ∙ ap (finish (command_id raw') (digest Action.undo (without_id raw')) d₁)
          (undo-stale env' raw' d₁ d.session.revision (same ∙ named) (omega (arith, next)))
