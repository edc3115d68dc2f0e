-- ===== src/Playback/Tests/Commands.antt =====
-- Commands on the session of the tests.
use sound_dock.Base.{ℕ, ◌≡◌, refl, ◌≢◌, pos, true, false, none, str_eq, ok, err, arith}
use sound_dock.Playback.Session.{Dock, bump_revision, command_conflict, undo_stale, unknown_action}
use sound_dock.Playback.Extra.{
  Fields, end, field, text, int, list, dict, cons, nil, get, extra_bool, extra_int, extra_string,
  trim, trim_left, trim_right,
}
use sound_dock.Playback.Control.{
  Action, control_tx, dispatch, write_stop_after, write_shuffle_mode, write_position, play_index,
  done,
}
use sound_dock.Playback.Cursor.{play_row}
use sound_dock.Playback.Cursor.WellFormed.{WellFormed}
use sound_dock.Playback.Command.Revision.{control-WellFormed, undo_once}
use sound_dock.Playback.Undo.{
  restore_undo, merge_rows, merge_loop, sort_snap, sort_put, ids_of, restored_rows, unknown_row,
  index_of, undo_cursor, restored, undo_generation, any_uuid, parse_undo_item, parse_values,
  parse_undo_items,
}
use sound_dock.Playback.Command.{
  Reply, command_id, without_id, control, normalize, load_receipt, with_receipt,
}
use sound_dock.Playback.Command.Replay.{control_twice, control_conflict}
use sound_dock.Playback.Tests.{world, dock, dock-WellFormed}

-- A digest that tells one field from two.
abbrev digest : Action → Fields → ℕ
digest a end = 0
digest a (field k v fs) = 1

abbrev no_fill : Dock → Dock
no_fill d = d

abbrev keyed : Fields
keyed = field "command_id" (text " k1 ") end

abbrev shuffled : Dock
shuffled = with_receipt "k1" 0 none (record dock {
  session =
      bump_revision
        (record (dock.session) { modes = record (dock.session.modes) { shuffle = true } });
})

runs :
    control digest no_fill world Action.shuffle keyed dock ≡ (shuffled, ok (record { undo = none }))
unfolding control normalize load_receipt control_tx dispatch write_stop_after write_shuffle_mode
    write_position get extra_bool extra_int extra_string trim trim_left trim_right
runs = refl

has_id : str_eq (command_id (normalize Action.shuffle keyed)) "" ≡ false
unfolding normalize get extra_string trim trim_left trim_right
has_id = refl

control_twice_example :
    control digest no_fill world Action.shuffle keyed shuffled
    ≡ (shuffled, ok (record { undo = none }))
control_twice_example =
    control_twice digest no_fill world world Action.shuffle keyed dock (λ d. refl) has_id runs

-- The same id with one field more.
abbrev rekeyed : Fields
rekeyed = field "volume" (int (pos 1)) keyed

same_id : command_id (normalize Action.volume rekeyed) ≡ command_id (normalize Action.shuffle keyed)
unfolding normalize get extra_string
same_id = refl

other_digest :
    digest Action.volume (without_id (normalize Action.volume rekeyed))
    ≢ digest Action.shuffle (without_id (normalize Action.shuffle keyed))
unfolding normalize
other_digest e = omega (arith, e)

control_conflict_example :
    control digest no_fill world Action.volume rekeyed shuffled ≡ (shuffled, err command_conflict)
control_conflict_example =
    control_conflict digest no_fill world world Action.shuffle Action.volume keyed rekeyed dock
      (λ d. refl) has_id same_id other_digest runs

-- An undo of generation 9 that brings back one row.
abbrev sent : Fields
sent = field "undo_generation" (int (pos 9)) (
    field "items"
      (list (
        cons
          (dict (
            field "track_id" (text "t")
              (field "id" (text "i") (field "position" (int (pos 1)) end))))
          nil))
      end)

abbrev undone : Dock
undone = (control digest no_fill world Action.undo sent dock).0

abbrev undo_reply : Reply
undo_reply = record { undo = none }

undoes : control digest no_fill world Action.undo sent dock ≡ (undone, ok undo_reply)
unfolding control normalize load_receipt control_tx dispatch write_stop_after write_shuffle_mode
    write_position get extra_bool extra_int extra_string trim trim_left trim_right restore_undo
    merge_rows merge_loop sort_snap sort_put ids_of restored_rows unknown_row index_of undo_cursor
    restored undo_generation any_uuid parse_undo_item parse_values parse_undo_items
undoes = refl

no_receipt : load_receipt (command_id sent) dock.receipts ≡ none
unfolding load_receipt
no_receipt = refl

none_yet : load_receipt (command_id sent) undone.receipts ≡ none
unfolding control normalize load_receipt control_tx dispatch write_stop_after write_shuffle_mode
    write_position get extra_bool extra_int extra_string trim trim_left trim_right restore_undo
    merge_rows merge_loop sort_snap sort_put ids_of restored_rows unknown_row index_of undo_cursor
    restored undo_generation any_uuid parse_undo_item parse_values parse_undo_items
none_yet = refl

undo_once_example : control digest no_fill world Action.undo sent undone ≡ (undone, err undo_stale)
undo_once_example =
    undo_once digest no_fill world world sent sent dock no_receipt undoes refl none_yet

control-WellFormed_example :
    WellFormed
      (control digest no_fill world Action.remove (field "position" (int (pos 1)) end) dock).0
control-WellFormed_example =
    control-WellFormed digest no_fill world Action.remove (field "position" (int (pos 1)) end) dock
      (λ d w. w) dock-WellFormed tt

fails : control digest no_fill world Action.other end dock ≡ (dock, err unknown_action)
unfolding control normalize load_receipt control_tx dispatch write_stop_after write_shuffle_mode
    write_position get extra_bool extra_int extra_string trim trim_left trim_right
fails = refl

abbrev at_two : Fields
at_two = field "index" (int (pos 2)) end

plays : control_tx world Action.index at_two dock ≡ ok (done (play_row world 2 13 dock))
unfolding control_tx dispatch write_stop_after write_shuffle_mode write_position play_index get
    extra_bool extra_int extra_string
plays = refl
