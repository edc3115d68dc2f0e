-- ===== src/Playback/Command.antt =====
-- `Engine.Control` (internal/playback/control.go) with its idempotency receipts (receipts.go): one
-- command on one session, the session's row locked, so commands follow one another. A failed
-- statement rolls the transaction back.
pub mod Replay
pub mod Revision
use sound_dock.Base.{
  ℕ, ◌+◌, ℤ, pos, Bool, true, false, not, Option, none, some, String, str_eq, List, [], ◌∷◌, leb,
  ◌==◌, if◌then◌else◌, Result, ok, err,
}
use sound_dock.Playback.Session.{
  UndoItem, Item, Session, Dock, Receipt, Try, Error, bump_revision, command_conflict,
  command_failed,
}
use sound_dock.Playback.Extra.{
  Value, bool, Fields, end, field, get, put, extra_string, extra_bool, trim,
}
use sound_dock.Playback.Env.{Env}
use sound_dock.Playback.Control.{Action, Outcome, control_tx}

-- What the call adds to `extra` for its caller: "undo" and "undo_generation". A receipt also keeps
-- such entries of the request itself; a replay writes them back where they already are.
pub record Reply : Type 0 where
  pub undo : Option (ℕ × List UndoItem)

-- `normalizeControlExtra`.
unfoldable pub normalize : Action → Fields → Fields
normalize Action.stop_after_current extra = elim (extra_bool "stop_after_current" extra) [
  | some v ↦ extra
  | none ↦ elim (extra_bool "enabled" extra) [
    | none ↦ extra
    | some v ↦ put "stop_after_current" (bool v) extra
  ]
]
normalize _ extra = extra

-- `requestHash` leaves the command id out.
abbrev pub without_id : Fields → Fields
without_id end = end
without_id (field k v fs) =
    let rest = without_id fs in if str_eq k "command_id" then rest else field k v rest

-- `commandIDOf`.
abbrev pub command_id : Fields → String
command_id extra = trim (extra_string "command_id" extra)

-- `loadReceipt`, on the session's receipts; the command id is their key.
unfoldable pub load_receipt : String → List Receipt → Option Receipt
load_receipt c [] = none
load_receipt c (r ∷ rs) = if str_eq r.command c then some r else load_receipt c rs

-- `currentQueueItemID`.
abbrev pub current_item : ℕ → List Item → Option ℕ
current_item idx [] = none
current_item idx (r ∷ rs) = if r.position == idx then some r.id else current_item idx rs

-- `receiptError` and `applyUndoFromReceipt`.
unfoldable pub replay : Receipt → Try Reply
replay r = if leb 400 r.status then err command_failed else ok (record { undo = r.undo })

-- `finalizeUndoExtra`.
abbrev pub undo_of : ℕ → List UndoItem → Option (ℕ × List UndoItem)
undo_of revision [] = none
undo_of revision (x ∷ xs) = some (revision, x ∷ xs)

abbrev pub bumped : Bool → Dock → Dock
bumped mutated d = if mutated then record d { session = bump_revision d.session } else d

-- The row that `insertReceipt` writes.
abbrev pub receipt_of : String → ℕ → Dock → Option (ℕ × List UndoItem) → Receipt
receipt_of c hash d undo = record {
  command = c;
  hash = hash;
  status = 200;
  revision = d.session.revision;
  item = current_item d.session.current_index d.items;
  undo = undo;
}

abbrev pub is_empty_id : String → Bool
is_empty_id c = str_eq c ""

abbrev pub with_receipt : String → ℕ → Option (ℕ × List UndoItem) → Dock → Dock
with_receipt c hash undo d =
    if is_empty_id c then d else record d { receipts = receipt_of c hash d undo ∷ d.receipts }

-- The rest of the transaction, after `controlTx`.
abbrev pub finish : String → ℕ → Dock → Try Outcome → Dock × Try Reply
finish c hash d (err e) = (d, err e)
finish c hash d (ok o) =
    let d' = bumped o.mutated o.dock in
    let undo = undo_of d'.session.revision o.undo_items in
    (with_receipt c hash undo d', ok (record { undo = undo }))

-- The transaction of a command that has no receipt yet.
abbrev pub execute : Env → Action → Fields → String → ℕ → Dock → Dock × Try Reply
execute env action extra c hash d = finish c hash d (control_tx env action extra d)

abbrev pub refills : Action → Bool
refills Action.skip = true
refills Action.next = true
refills _ = false

-- What becomes of a command: without an id, or without a receipt of that id, it runs.
abbrev pub answer : Bool → Option Receipt → ℕ → Dock → Dock × Try Reply → Dock × Try Reply
answer true found hash d run = run
answer false none hash d run = run
answer false (some r) hash d run =
    if r.hash == hash then (d, replay r) else (d, err command_conflict)

-- `digest` stands for SHA-256 over the JSON of the action and the extras, `fill` for the autoplay
-- filler, which runs before a skip in transactions of its own.
module _ (digest : Action → Fields → ℕ) (fill : Dock → Dock) where
  abbrev pub filled : Action → Dock → Dock
  filled action d = if refills action then fill d else d

  -- `Control`.
  unfoldable pub control : Env → Action → Fields → Dock → Dock × Try Reply
  control env action raw d =
      let extra = normalize action raw in
      let c = command_id extra in
      let hash = digest action (without_id extra) in
      let d' = filled action d in
      answer (is_empty_id c) (load_receipt c d'.receipts) hash d'
        (execute env action extra c hash d')
