-- ===== src/Playback/Control/WellFormed.antt =====
-- Every control action keeps a session well formed (internal/playback/control.go).
use sound_dock.Playback.Control.Kept.{
  SameQueue-WellFormed, before_switch-same, play_index-WellFormed, set_repeat-WellFormed,
  set_autoplay-WellFormed, set_output-WellFormed, pause-WellFormed, clear-WellFormed, Ends,
  Ends-bind, Ends-ok,
}
use sound_dock.Base.{
  ℕ, zero, suc, ◌<◌, ◌≡◌, refl, sym, ◌∙◌, subst, ◌≢◌, inl, inr, ℤ, pos, negsuc, Bool, true, false,
  ◌||◌, Option, none, some, List, [], ◌∷◌, ◌++◌, map, length, get_elem?, get_elem?-append_left,
  take, drop, ok, arith, ◌>>=◌, Bool-cases, ◌==◌, if◌then◌else◌, get_elem?-some_lt, length-map,
}
use sound_dock.Playback.Session.{Item, Dock}
use sound_dock.Playback.Queue.{tracks, add_tracks}
use sound_dock.Playback.Queue.Insert.{add_tracks_sound, added}
use sound_dock.Playback.Extra.{Fields, extra_bool, extra_uuids, extra_int, extra_string, is_set}
use sound_dock.Playback.Env.{Env}
use sound_dock.Playback.Cursor.{replace_queue, reorder}
use sound_dock.Playback.Cursor.WellFormed.{
  WellFormed, PointsAt, replace_queue-WellFormed, move-WellFormed, remove_at-WellFormed,
  reorder-WellFormed,
}
use sound_dock.Playback.Undo.{restore_undo, undo_generation, parse_undo_items, merge_rows, load_row}
use sound_dock.Playback.Undo.Restore.{restored-WellFormed, restore_undo_cases}
use sound_dock.Playback.Control.{
  Action, Outcome, control_tx, dispatch, write_stop_after, write_shuffle_mode, write_position,
  resume_session, stop_session, mute_session, seek_to, add_items, remove_item, reorder_item,
  or_zero, done,
}

-- What an action that adds behind the current row asks of the queue.
abbrev pub AddsBehindRow : Action → Fields → Dock → Type 0
AddsBehindRow Action.add extra d = is_set (extra_bool "next" extra) ≡ true → d.items ≢ []
AddsBehindRow _ extra d = Unit {0}

pub on_row : (d : Dock) → WellFormed d → d.items ≢ [] → d.session.current_index < length d.items
on_row d w n = cursor_lt d.session.current_track d.session.current_index d.items w.cursor n
  where
    cursor_lt :
        (t : Option ℕ) (i : ℕ) (rows : List Item)
        → PointsAt t i (tracks rows)
        → rows ≢ []
        → i < length rows
    cursor_lt t i [] p ne = absurd (ne refl)
    cursor_lt none i (r ∷ rs) p ne = omega arith
    cursor_lt (some t) i (r ∷ rs) p ne = omega (
      arith,
      get_elem?-some_lt (tracks (r ∷ rs)) i p,
      length-map (r ∷ rs) (λ (x : Item). x.track),
    )

get_elem?-take_left :
    (n i : ℕ) (xs ys : List ℕ) {x : ℕ}
    → i < n
    → get_elem? xs i ≡ some x
    → get_elem? (take n xs ++ ys) i ≡ some x
get_elem?-take_left n i [] ys l e = cc
get_elem?-take_left zero i (x ∷ xs) ys l e = elim l [ ]
get_elem?-take_left (suc n) zero (x ∷ xs) ys l e = e
get_elem?-take_left (suc n) (suc i) (x ∷ xs) ys l e = get_elem?-take_left n i xs ys (omega arith) e

pub added-PointsAt :
    (t : Option ℕ) (cur : ℕ) (ts : List ℕ) (ahead : Bool) (old : List ℕ)
    → PointsAt t cur old
    → PointsAt t cur (added cur ts ahead old)
unfolding added
added-PointsAt none cur ts ahead old p = p
added-PointsAt (some t) cur ts true old p =
    get_elem?-take_left (suc cur) cur old (ts ++ drop (suc cur) old) (omega arith) p
added-PointsAt (some t) cur ts false old p =
    get_elem?-append_left old ts cur (get_elem?-some_lt old cur p) ∙ p

add_items-WellFormed :
    (env : Env) (ts : List ℕ) (ahead : Bool) (d : Dock)
    → WellFormed d
    → (ahead ≡ true → d.items ≢ [])
    → Ends (add_items env ts ahead d)
unfolding add_items
add_items-WellFormed env ts ahead d w n =
    Ends-bind (add_tracks env.catalog env.who d.next_uuid d.session.current_index ts ahead d.items)
      _
      λ rows e.
        let (numbered, listed) =
          add_tracks_sound env.catalog env.who d.next_uuid d.session.current_index ts ahead d.items
            w.numbered (λ a. on_row d w (n a)) e in
        record {
          numbered = numbered;
          cursor = subst (PointsAt d.session.current_track d.session.current_index) (sym listed) (
              added-PointsAt d.session.current_track d.session.current_index ts ahead
                (tracks d.items) w.cursor);
        }

moved_condition :
    (action : Action) (extra : Fields) (d e : Dock)
    → e.items ≡ d.items
    → AddsBehindRow action extra d
    → AddsBehindRow action extra e
moved_condition Action.add extra d e s a = λ n. subst (λ rows. rows ≢ []) (sym s) (a n)
moved_condition _ extra d e s a = tt

add-WellFormed :
    (env : Env) (ts : List ℕ) (ahead mutated : Bool) (d : Dock)
    → WellFormed d
    → (ahead ≡ true → d.items ≢ [])
    → Ends (
        if length ts == 0
        then ok (record { dock = d; mutated = mutated; undo_items = [] })
        else add_items env ts ahead d)
add-WellFormed env ts ahead mutated d w n = elim (Bool-cases (length ts == 0)) [
  | inl e ↦ rw e w
  | inr e ↦ rw e (add_items-WellFormed env ts ahead d w n)
]

reorder_item-WellFormed :
    (mutated : Bool) (from to : Option ℤ) (d : Dock)
    → WellFormed d
    → Ends (reorder_item mutated from to d)
unfolding reorder_item
reorder_item-WellFormed mutated none to d w = tt
reorder_item-WellFormed mutated (some from) none d w = tt
reorder_item-WellFormed mutated (some from) (some to) d w =
    Ends-bind (reorder from to d) _ (λ r e. reorder-WellFormed from to d w e)

undo-WellFormed :
    (env : Env) (generation : Option ℤ) (extra : Fields) (d : Dock)
    → Ends (restore_undo env generation (parse_undo_items env extra) d >>= λ d'. ok (done d'))
undo-WellFormed env generation extra d =
    Ends-bind (restore_undo env generation (parse_undo_items env extra) d) _ λ d' e.
      subst WellFormed (sym (restore_undo_cases env generation (parse_undo_items env extra) d e).1)
        (restored-WellFormed (merge_rows (map load_row d.items) (parse_undo_items env extra)) d)

dispatch-WellFormed :
    (env : Env) (action : Action) (extra : Fields) (mutated : Bool) (d : Dock)
    → WellFormed d
    → AddsBehindRow action extra d
    → Ends (dispatch env action extra mutated d)
unfolding dispatch resume_session stop_session mute_session seek_to remove_item
dispatch-WellFormed env Action.pause extra mutated d w a =
    pause-WellFormed env (extra_int "position_ms" extra) d w
dispatch-WellFormed env Action.clear extra mutated d w a =
    clear-WellFormed (is_set (extra_bool "all" extra)) d w
dispatch-WellFormed env Action.repeat extra mutated d w a =
    set_repeat-WellFormed (extra_string "mode" extra) d w
dispatch-WellFormed env Action.autoplay extra mutated d w a = set_autoplay-WellFormed _ d w
dispatch-WellFormed env Action.output_pref extra mutated d w a = set_output-WellFormed _ d w
dispatch-WellFormed env Action.add extra mutated d w a =
    add-WellFormed env (extra_uuids env.parse "track_ids" extra) (is_set (extra_bool "next" extra))
      mutated d w a
dispatch-WellFormed env Action.skip extra mutated d w a =
    move-WellFormed env (pos 1) (is_set (extra_bool "ended" extra)) d w
dispatch-WellFormed env Action.next extra mutated d w a =
    move-WellFormed env (pos 1) (is_set (extra_bool "ended" extra)) d w
dispatch-WellFormed env Action.previous extra mutated d w a =
    move-WellFormed env (negsuc 0) false d w
dispatch-WellFormed env Action.index extra mutated d w a =
    play_index-WellFormed env (extra_int "index" extra) d w
dispatch-WellFormed env Action.remove extra mutated d w a =
    remove_at-WellFormed env (or_zero (extra_int "position" extra)) d w
dispatch-WellFormed env Action.undo extra mutated d w a =
    undo-WellFormed env (undo_generation extra) extra d
dispatch-WellFormed env Action.reorder_items extra mutated d w a =
    reorder_item-WellFormed mutated (extra_int "from" extra) (extra_int "to" extra) d w
dispatch-WellFormed env Action.replace extra mutated d w a =
    Ends-bind
      (replace_queue env (extra_uuids env.parse "track_ids" extra)
        (or_zero (extra_int "start" extra)) d)
      _
      λ d' e.
        replace_queue-WellFormed env (extra_uuids env.parse "track_ids" extra)
          (or_zero (extra_int "start" extra)) d e
dispatch-WellFormed env Action.other extra mutated d w a = tt
dispatch-WellFormed env action extra mutated d w a = record {
  numbered = w.numbered;
  cursor = w.cursor;
}

-- A control action that succeeds on a well-formed session leaves a well-formed one, whatever the
-- action and its extras: positions 0, 1, 2, … and the current track at the current index. When it
-- adds tracks behind the current row, the queue must not be empty.
pub control_tx-WellFormed :
    (env : Env) (action : Action) (extra : Fields) (d : Dock) {o : Outcome}
    → WellFormed d
    → AddsBehindRow action extra d
    → control_tx env action extra d ≡ ok o
    → WellFormed o.dock
unfolding control_tx
control_tx-WellFormed env action extra d w a h =
    let d₁ = write_stop_after extra d in
    let d₂ = write_shuffle_mode extra d₁.0 in
    let d₃ = write_position action extra d₂.0 in
    let kept = before_switch-same action extra d in
    Ends-ok (dispatch env action extra (d₁.1 || d₂.1) d₃)
      (dispatch-WellFormed env action extra (d₁.1 || d₂.1) d₃ (SameQueue-WellFormed d d₃ kept w)
        (moved_condition action extra d d₃ kept.0 a))
      h
