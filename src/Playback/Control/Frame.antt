-- ===== src/Playback/Control/Frame.antt =====
-- No control action touches the state revision or the receipts (internal/playback/control.go):
-- `Control` alone does.
use sound_dock.Base.{
  ℕ, ◌≡◌, refl, sym, ◌∙◌, subst, ℤ, pos, negsuc, Bool, true, false, ◌||◌, Option, none, some,
  String, List, [], length, ok, err, arith, ◌>>=◌, Bool-cases, ◌==◌, if◌then◌else◌, inl, inr, map,
}
use sound_dock.Playback.Session.{Dock, Try}
use sound_dock.Playback.Queue.{add_tracks}
use sound_dock.Playback.Extra.{Fields, extra_bool, extra_uuids, extra_int, extra_string, is_set}
use sound_dock.Playback.Env.{Env}
use sound_dock.Playback.Cursor.{replace_queue, reorder}
use sound_dock.Playback.Cursor.Frame.{
  Frames, replace_queue-Frames, clear_keep_current-Frames, move-Frames, remove_at-Frames,
  reorder-Frames,
}
use sound_dock.Playback.Undo.{restore_undo, undo_generation, parse_undo_items, merge_rows, load_row}
use sound_dock.Playback.Undo.Restore.{restored-Frames, restore_undo_cases}
use sound_dock.Playback.Control.{
  Action, Outcome, control_tx, dispatch, write_stop_after, write_shuffle_mode, write_position,
  pause_session, resume_session, stop_session, clear_all, clear_upcoming, set_repeat, mute_session,
  set_autoplay, set_output, seek_to, add_items, play_index, remove_item, reorder_item, or_zero,
  done,
}

abbrev Framed : Dock → Try Outcome → Type 0
Framed d (ok o) = Frames d o.dock
Framed d (err e) = Unit {0}

Framed-bind :
    {A : Type 0} (d : Dock) (m : Try A) (f : A → Try Outcome)
    → ((a : A) → m ≡ ok a → Framed d (f a))
    → Framed d (m >>= f)
Framed-bind d (ok a) f h = h a refl
Framed-bind d (err e) f h = tt

play_index-Framed : (env : Env) (i : Option ℤ) (d : Dock) → Framed d (play_index env i d)
unfolding play_index
play_index-Framed env none d = tt
play_index-Framed env (some (negsuc n)) d = tt
play_index-Framed env (some (pos i)) d = ground arith

set_repeat-Framed : (mode : String) (d : Dock) → Framed d (set_repeat mode d)
unfolding set_repeat
set_repeat-Framed mode d = ground arith

set_autoplay-Framed : (v : Option Bool) (d : Dock) → Framed d (set_autoplay v d)
unfolding set_autoplay
set_autoplay-Framed none d = tt
set_autoplay-Framed (some v) d = (refl, refl)

set_output-Framed : (pref : String) (d : Dock) → Framed d (set_output pref d)
unfolding set_output
set_output-Framed pref d = ground arith

pause-Frames : (env : Env) (ms : Option ℤ) (d : Dock) → Frames d (pause_session env ms d)
unfolding pause_session
pause-Frames env none d = (refl, refl)
pause-Frames env (some ms) d = (refl, refl)

clear-Frames : (b : Bool) (d : Dock) → Frames d (if b then clear_all d else clear_upcoming d).dock
unfolding clear_all clear_upcoming
clear-Frames true d = (refl, refl)
clear-Frames false d = clear_keep_current-Frames d

add-Framed :
    (env : Env) (ts : List ℕ) (ahead mutated : Bool) (d : Dock)
    → Framed d (
        if length ts == 0
        then ok (record { dock = d; mutated = mutated; undo_items = [] })
        else add_items env ts ahead d)
unfolding add_items
add-Framed env ts ahead mutated d = elim (Bool-cases (length ts == 0)) [
  | inl e ↦ rw e (refl, refl)
  | inr e ↦ rw e (
      Framed-bind d
        (add_tracks env.catalog env.who d.next_uuid d.session.current_index ts ahead d.items) _
        (λ rows q. (refl, refl)))
]

reorder_item-Framed :
    (mutated : Bool) (from to : Option ℤ) (d : Dock) → Framed d (reorder_item mutated from to d)
unfolding reorder_item
reorder_item-Framed mutated none to d = tt
reorder_item-Framed mutated (some from) none d = tt
reorder_item-Framed mutated (some from) (some to) d =
    Framed-bind d (reorder from to d) _ (λ r e. reorder-Frames from to d e)

undo-Framed :
    (env : Env) (generation : Option ℤ) (extra : Fields) (d : Dock)
    → Framed d (restore_undo env generation (parse_undo_items env extra) d >>= λ d'. ok (done d'))
undo-Framed env generation extra d =
    Framed-bind d (restore_undo env generation (parse_undo_items env extra) d) _ λ d' e.
      subst (Frames d) (sym (restore_undo_cases env generation (parse_undo_items env extra) d e).1)
        (restored-Frames (merge_rows (map load_row d.items) (parse_undo_items env extra)) d)

dispatch-Framed :
    (env : Env) (action : Action) (extra : Fields) (mutated : Bool) (d : Dock)
    → Framed d (dispatch env action extra mutated d)
unfolding dispatch resume_session stop_session mute_session seek_to remove_item
dispatch-Framed env Action.pause extra mutated d =
    pause-Frames env (extra_int "position_ms" extra) d
dispatch-Framed env Action.clear extra mutated d = clear-Frames (is_set (extra_bool "all" extra)) d
dispatch-Framed env Action.repeat extra mutated d = set_repeat-Framed (extra_string "mode" extra) d
dispatch-Framed env Action.autoplay extra mutated d = set_autoplay-Framed _ d
dispatch-Framed env Action.output_pref extra mutated d = set_output-Framed _ d
dispatch-Framed env Action.add extra mutated d =
    add-Framed env (extra_uuids env.parse "track_ids" extra) (is_set (extra_bool "next" extra))
      mutated d
dispatch-Framed env Action.skip extra mutated d =
    move-Frames env (pos 1) (is_set (extra_bool "ended" extra)) d
dispatch-Framed env Action.next extra mutated d =
    move-Frames env (pos 1) (is_set (extra_bool "ended" extra)) d
dispatch-Framed env Action.previous extra mutated d = move-Frames env (negsuc 0) false d
dispatch-Framed env Action.index extra mutated d = play_index-Framed env (extra_int "index" extra) d
dispatch-Framed env Action.remove extra mutated d =
    remove_at-Frames env (or_zero (extra_int "position" extra)) d
dispatch-Framed env Action.undo extra mutated d = undo-Framed env (undo_generation extra) extra d
dispatch-Framed env Action.reorder_items extra mutated d =
    reorder_item-Framed mutated (extra_int "from" extra) (extra_int "to" extra) d
dispatch-Framed env Action.replace extra mutated d =
    Framed-bind d
      (replace_queue env (extra_uuids env.parse "track_ids" extra)
        (or_zero (extra_int "start" extra)) d)
      _
      λ d' e.
        replace_queue-Frames env (extra_uuids env.parse "track_ids" extra)
          (or_zero (extra_int "start" extra)) d e
dispatch-Framed env Action.other extra mutated d = tt
dispatch-Framed env action extra mutated d = (refl, refl)

write_stop_after-Frames : (extra : Fields) (d : Dock) → Frames d (write_stop_after extra d).0
unfolding write_stop_after
write_stop_after-Frames extra d = ground arith

write_shuffle_mode-Frames : (extra : Fields) (d : Dock) → Frames d (write_shuffle_mode extra d).0
unfolding write_shuffle_mode
write_shuffle_mode-Frames extra d = ground arith

write_position-Frames :
    (action : Action) (extra : Fields) (d : Dock) → Frames d (write_position action extra d)
unfolding write_position
write_position-Frames action extra d = ground arith

Frames-trans : (a b c : Dock) → Frames a b → Frames b c → Frames a c
Frames-trans a b c (r, s) (t, u) = (t ∙ r, u ∙ s)

-- The writes before the switch.
pub before_switch-Frames :
    (action : Action) (extra : Fields) (d : Dock)
    → Frames d
        (write_position action extra (write_shuffle_mode extra (write_stop_after extra d).0).0)
before_switch-Frames action extra d =
    let d₁ = (write_stop_after extra d).0 in
    let d₂ = (write_shuffle_mode extra d₁).0 in
    Frames-trans d d₁ (write_position action extra d₂) (write_stop_after-Frames extra d) (
      Frames-trans d₁ d₂ (write_position action extra d₂) (write_shuffle_mode-Frames extra d₁)
        (write_position-Frames action extra d₂))

-- A control action that succeeds leaves the state revision and the receipts as they were.
pub control_tx-Frames :
    (env : Env) (action : Action) (extra : Fields) (d : Dock) {o : Outcome}
    → control_tx env action extra d ≡ ok o
    → Frames d o.dock
unfolding control_tx
control_tx-Frames env action extra d {o} h =
    let d₁ = write_stop_after extra d in
    let d₂ = write_shuffle_mode extra d₁.0 in
    let d₃ = write_position action extra d₂.0 in
    Frames-trans d d₃ o.dock (before_switch-Frames action extra d)
      (subst (Framed d₃) h (dispatch-Framed env action extra (d₁.1 || d₂.1) d₃))
