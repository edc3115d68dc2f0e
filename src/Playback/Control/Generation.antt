-- ===== src/Playback/Control/Generation.antt =====
-- The undo action and the generation it names (internal/playback/control.go).
use sound_dock.Base.{ℕ, ◌≡◌, ap, ◌∙◌, ◌≢◌, pos, true, some, ok, err, ◌>>=◌, >>=-eq-ok}
use sound_dock.Playback.Session.{Dock, undo_stale}
use sound_dock.Playback.Extra.{Fields}
use sound_dock.Playback.Env.{Env}
use sound_dock.Playback.Undo.{restore_undo, undo_generation, parse_undo_items}
use sound_dock.Playback.Undo.Restore.{restore_undo_cases, restore_undo-stale}
use sound_dock.Playback.Control.{
  Action, Outcome, control_tx, dispatch, write_stop_after, write_shuffle_mode, write_position, done,
}
use sound_dock.Playback.Control.Frame.{before_switch-Frames}

-- An undo that succeeds names the revision of the session, and counts as a change.
pub undo_generation-eq :
    (env : Env) (extra : Fields) (d : Dock) {o : Outcome}
    → control_tx env Action.undo extra d ≡ ok o
    → (undo_generation extra ≡ some (pos d.session.revision)) × (o.mutated ≡ true)
unfolding control_tx dispatch
undo_generation-eq env extra d {o} h =
    let d₃ =
      write_position Action.undo extra (write_shuffle_mode extra (write_stop_after extra d).0).0 in
    let (e, restored_it, same) =
      >>=-eq-ok (restore_undo env (undo_generation extra) (parse_undo_items env extra) d₃)
        (λ x. ok (done x)) h in
    (
      (restore_undo_cases env (undo_generation extra) (parse_undo_items env extra) d₃ restored_it).0
          ∙ ap (λ n. some (pos n)) (before_switch-Frames Action.undo extra d).0,
      cc,
    )

-- An undo that names another revision is stale.
pub undo-stale :
    (env : Env) (extra : Fields) (d : Dock) (n : ℕ)
    → undo_generation extra ≡ some (pos n)
    → n ≢ d.session.revision
    → control_tx env Action.undo extra d ≡ err undo_stale
unfolding control_tx dispatch
undo-stale env extra d n e ne =
    let d₃ =
      write_position Action.undo extra (write_shuffle_mode extra (write_stop_after extra d).0).0 in
    ap (λ m. m >>= λ x. ok (done x))
      (restore_undo-stale env (undo_generation extra) (parse_undo_items env extra) d₃ n e
        (λ q. ne (q ∙ (before_switch-Frames Action.undo extra d).0)))
