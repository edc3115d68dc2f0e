-- ===== src/Playback/Tests/Requests.antt =====
-- A sequence of requests on a new session.
use sound_dock.Base.{ℕ, pos, [], ◌∷◌}
use sound_dock.Playback.Session.{Dock}
use sound_dock.Playback.Extra.{Fields, end}
use sound_dock.Playback.Cursor.WellFormed.{WellFormed}
use sound_dock.Playback.Control.{Action}
use sound_dock.Playback.Command.{control}
use sound_dock.Playback.Engine.{replace, drop}
use sound_dock.Playback.Engine.Reachable.{Reachable, Step, created, Reachable-WellFormed}
use sound_dock.Playback.Tests.{world, head_at, desk, knobs}

abbrev digest : Action → Fields → ℕ
digest a fs = 0

abbrev no_fill : Dock → Dock
no_fill d = d

-- Three tracks, the second of them playing; a skip; the second track is dropped.
abbrev filled : Dock
filled = (replace world (11 ∷ 12 ∷ 13 ∷ []) (pos 1) (created head_at desk knobs)).0

abbrev skipped : Dock
skipped = (control digest no_fill world Action.skip end filled).0

abbrev thinned : Dock
thinned = drop world (12 ∷ []) skipped

thinned-Reachable : Reachable digest no_fill thinned
thinned-Reachable =
    Reachable.then_step
      (Reachable.then_step
        (Reachable.then_step (Reachable.new head_at desk knobs)
          (Step.replaced world (11 ∷ 12 ∷ 13 ∷ []) (pos 1)))
        (Step.command world Action.skip end tt))
      (Step.dropped world (12 ∷ []))

Reachable-WellFormed_example : WellFormed thinned
Reachable-WellFormed_example = Reachable-WellFormed digest no_fill (λ d w. w) thinned-Reachable
