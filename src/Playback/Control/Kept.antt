-- ===== src/Playback/Control/Kept.antt =====
-- What the handlers of single actions keep (internal/playback/control.go).
use sound_dock.Base.{
  ◌≡◌, refl, sym, ◌∙◌, subst, ℤ, pos, negsuc, Bool, true, false, Option, none, some, String, ok,
  err, arith, ◌>>=◌, if◌then◌else◌,
}
use sound_dock.Playback.Session.{Dock, Try}
use sound_dock.Playback.Queue.Numbered.{Numbered}
use sound_dock.Playback.Extra.{Fields}
use sound_dock.Playback.Env.{Env}
use sound_dock.Playback.Cursor.WellFormed.{WellFormed, clear_keep_current-WellFormed}
use sound_dock.Playback.Control.{
  Action, Outcome, write_stop_after, write_shuffle_mode, write_position, pause_session, clear_all,
  clear_upcoming, set_repeat, set_autoplay, set_output, play_index,
}

-- A result, if there is one, is well formed.
abbrev pub Ends : Try Outcome → Type 0
Ends (ok o) = WellFormed o.dock
Ends (err e) = Unit {0}

pub Ends-bind :
    {A : Type 0} (m : Try A) (f : A → Try Outcome)
    → ((a : A) → m ≡ ok a → Ends (f a))
    → Ends (m >>= f)
Ends-bind (ok a) f h = h a refl
Ends-bind (err e) f h = tt

pub Ends-ok : (m : Try Outcome) {o : Outcome} → Ends m → m ≡ ok o → WellFormed o.dock
Ends-ok m h e = subst Ends e h

-- Writes that leave the queue and the cursor alone.
abbrev pub SameQueue : Dock → Dock → Type 0
SameQueue d e =
    (e.items ≡ d.items)
    × (e.session.current_index ≡ d.session.current_index)
    × (e.session.current_track ≡ d.session.current_track)

pub SameQueue-WellFormed : (d e : Dock) → SameQueue d e → WellFormed d → WellFormed e
SameQueue-WellFormed d e s w = record {
  numbered = subst (Numbered 0) (sym s.0) w.numbered;
  cursor = rw (s.0, s.1, s.2) w.cursor;
}

pub write_stop_after-same : (extra : Fields) (d : Dock) → SameQueue d (write_stop_after extra d).0
unfolding write_stop_after
write_stop_after-same extra d = ground arith

pub write_shuffle_mode-same :
    (extra : Fields) (d : Dock) → SameQueue d (write_shuffle_mode extra d).0
unfolding write_shuffle_mode
write_shuffle_mode-same extra d = ground arith

pub write_position-same :
    (action : Action) (extra : Fields) (d : Dock) → SameQueue d (write_position action extra d)
unfolding write_position
write_position-same action extra d = ground arith

pub before_switch-same :
    (action : Action) (extra : Fields) (d : Dock)
    → SameQueue d
        (write_position action extra (write_shuffle_mode extra (write_stop_after extra d).0).0)
before_switch-same action extra d =
    let d₁ = (write_stop_after extra d).0 in
    let d₂ = (write_shuffle_mode extra d₁).0 in
    let (a, b, c) = write_stop_after-same extra d in
    let (a₂, b₂, c₂) = write_shuffle_mode-same extra d₁ in
    let (a₃, b₃, c₃) = write_position-same action extra d₂ in
    (a₃ ∙ a₂ ∙ a, b₃ ∙ b₂ ∙ b, c₃ ∙ c₂ ∙ c)

pub play_index-WellFormed :
    (env : Env) (i : Option ℤ) (d : Dock) → WellFormed d → Ends (play_index env i d)
unfolding play_index
play_index-WellFormed env none d w = tt
play_index-WellFormed env (some (negsuc n)) d w = tt
play_index-WellFormed env (some (pos i)) d w = ground arith

pub set_repeat-WellFormed : (mode : String) (d : Dock) → WellFormed d → Ends (set_repeat mode d)
unfolding set_repeat
set_repeat-WellFormed mode d w = ground arith

pub set_autoplay-WellFormed : (v : Option Bool) (d : Dock) → WellFormed d → Ends (set_autoplay v d)
unfolding set_autoplay
set_autoplay-WellFormed none d w = tt
set_autoplay-WellFormed (some v) d w = record { numbered = w.numbered; cursor = w.cursor }

pub set_output-WellFormed : (pref : String) (d : Dock) → WellFormed d → Ends (set_output pref d)
unfolding set_output
set_output-WellFormed pref d w = ground arith

pub pause-WellFormed :
    (env : Env) (ms : Option ℤ) (d : Dock) → WellFormed d → WellFormed (pause_session env ms d)
unfolding pause_session
pause-WellFormed env none d w = record { numbered = w.numbered; cursor = w.cursor }
pause-WellFormed env (some ms) d w = record { numbered = w.numbered; cursor = w.cursor }

pub clear-WellFormed :
    (b : Bool) (d : Dock)
    → WellFormed d
    → WellFormed (if b then clear_all d else clear_upcoming d).dock
unfolding clear_all clear_upcoming
clear-WellFormed true d w = record { numbered = tt; cursor = refl }
clear-WellFormed false d w = clear_keep_current-WellFormed d w
