-- ===== src/Playback/Undo/Payload.antt =====
-- The undo that a reply carries is the undo that a request brings back: `undoItem.toMap` and
-- `parseUndoItem` (internal/playback/control.go).
use sound_dock.Base.{
  ℕ, ◌≡◌, refl, ap₂, ◌≢◌, ℤ, pos, false, Option, none, some, String, str_eq, List, [], ◌∷◌, arith,
  ◌==◌, if◌then◌else◌, All,
}
use sound_dock.Playback.Session.{UndoItem, nil_uuid}
use sound_dock.Playback.Extra.{
  Value, int, text, uuid, list, dict, Values, nil, cons, Fields, end, field, get, extra_int,
  extra_string, trim, truncate,
}
use sound_dock.Playback.Extra.Json.{
  IsExact, scaled, truncate-scaled, via_json, values_via_json, fields_via_json,
}
use sound_dock.Playback.Env.{Env}
use sound_dock.Playback.Undo.{
  any_uuid, parse_undo_item, parse_values, parse_undo_items, cons_item, undo_generation,
}

-- `m[key] = v`, if there is a value.
abbrev set_some : String → Option Value → Fields → Fields
set_some k none m = m
set_some k (some v) m = field k v m

-- A requester that is there: a user that is not nil, a Discord user that is not blank.
abbrev user_of : Option ℕ → Option ℕ
user_of none = none
user_of (some u) = if u == nil_uuid then none else some u

abbrev discord_of : Option String → Option String
discord_of none = none
discord_of (some s) = if str_eq (trim s) "" then none else some (trim s)

abbrev option_map : {A B : Type 0} → (A → B) → Option A → Option B
option_map f none = none
option_map f (some a) = some (f a)

-- `requestedByMap` without a display name.
abbrev requested_by_map : Option ℕ → Option String → Option Value
requested_by_map none none = none
requested_by_map (some u) none = some (dict (field "user_id" (uuid u) end))
requested_by_map none (some d) = some (dict (field "discord_user_id" (text d) end))
requested_by_map (some u) (some d) =
    some (dict (field "user_id" (uuid u) (field "discord_user_id" (text d) end)))

abbrev payload : (ℕ → String) → ℕ → ℕ → ℤ → String → Option ℕ → Option String → Fields
payload show id track position origin user discord = field "id" (text (show id)) (
    field "track_id" (text (show track)) (
      field "position" (int position) (
        field "origin" (text origin) (
          set_some "requested_by_user_id" (option_map (λ u. text (show u)) user) (
            set_some "requested_by_discord_user_id" (option_map text discord)
              (set_some "requested_by" (requested_by_map user discord) end))))))

-- `undoItem.toMap`. `show` stands for `UUID.String`.
pub to_map : (ℕ → String) → UndoItem → Fields
to_map show it =
    payload show it.id it.track it.position it.origin (user_of it.by_user)
      (discord_of it.by_discord)

-- A row as the queue holds it: an origin, and a requester that is no nil or blank text.
abbrev pub IsStored : UndoItem → Type 0
IsStored it =
    (it.track ≢ nil_uuid)
    × IsExact it.position
    × (str_eq it.origin "" ≡ false)
    × ((u : ℕ) → it.by_user ≡ some u → u ≢ nil_uuid)
    × ((s : String) → it.by_discord ≡ some s → (trim s ≡ s) × (str_eq s "" ≡ false))

user_of-stored : (o : Option ℕ) → ((u : ℕ) → o ≡ some u → u ≢ nil_uuid) → user_of o ≡ o
user_of-stored none h = refl
user_of-stored (some u) h = ground (arith, h u refl)

discord_of-stored :
    (o : Option String)
    → ((s : String) → o ≡ some s → (trim s ≡ s) × (str_eq s "" ≡ false))
    → discord_of o ≡ o
discord_of-stored none h = refl
discord_of-stored (some s) h = let (same, full) = h s refl in rw (same, full) refl

-- The float64 next to an integer is that integer, where a float64 holds it.
abbrev pub Rounds : (ℤ → ℤ) → Type 0
Rounds round = (n : ℤ) → IsExact n → round n ≡ scaled n

-- The readers of an integer that came through JSON.
truncate-round : (round : ℤ → ℤ) (n : ℤ) → Rounds round → IsExact n → truncate (round n) ≡ n
truncate-round round n rounds small = rw (rounds n small) (truncate-scaled n)

-- Sent and read back.
read_payload :
    (env : Env) (round : ℤ → ℤ) (show : ℕ → String) (id track : ℕ) (position : ℤ) (origin : String)
    (user : Option ℕ) (discord : Option String)
    → ((u : ℕ) → env.parse (trim (show u)) ≡ some u)
    → truncate (round position) ≡ position
    → (track == nil_uuid) ≡ false
    → str_eq origin "" ≡ false
    → ((u : ℕ) → user ≡ some u → (u == nil_uuid) ≡ false)
    → ((s : String) → discord ≡ some s → str_eq s "" ≡ false)
    → parse_undo_item env
        (fields_via_json round show (payload show id track position origin user discord))
      ≡ some (record {
        id = id;
        track = track;
        position = position;
        origin = origin;
        by_user = user;
        by_discord = discord;
      })
unfolding parse_undo_item any_uuid get extra_int extra_string via_json
read_payload env round show id track position origin none none shown p t o u s =
    rw (shown track, shown id, p, t, o) refl
read_payload env round show id track position origin none (some d) shown p t o u s =
    rw (shown track, shown id, p, t, o, s d refl) refl
read_payload env round show id track position origin (some v) none shown p t o u s =
    rw (shown track, shown id, p, t, o, shown v, u v refl) refl
read_payload env round show id track position origin (some v) (some d) shown p t o u s =
    rw (shown track, shown id, p, t, o, shown v, u v refl, s d refl) refl

read_map :
    (env : Env) (round : ℤ → ℤ) (show : ℕ → String) (it : UndoItem)
    → ((u : ℕ) → env.parse (trim (show u)) ≡ some u)
    → Rounds round
    → IsStored it
    → parse_undo_item env (fields_via_json round show (to_map show it)) ≡ some it
unfolding to_map
read_map env round show it shown rounds (t, small, o, u, s) =
    rw (user_of-stored it.by_user u, discord_of-stored it.by_discord s)
      (read_payload env round show it.id it.track it.position it.origin it.by_user it.by_discord
        shown (truncate-round round it.position rounds small) (ground (arith, t)) o
        (λ v e. ground (arith, u v e)) (λ d e. (s d e).1))

abbrev pub maps : (ℕ → String) → List UndoItem → Values
maps show [] = nil
maps show (it ∷ its) = cons (dict (to_map show it)) (maps show its)

-- `extra["undo"]` of `finalizeUndoExtra`, in a reply with nothing else.
abbrev pub undo_reply : (ℕ → String) → ℕ → List UndoItem → Fields
undo_reply show generation its =
    field "undo"
      (dict
        (field "undo_generation" (int (pos generation)) (field "items" (list (maps show its)) end)))
      end

-- The request that sends it back.
abbrev pub undo_request : (ℤ → ℤ) → (ℕ → String) → ℕ → List UndoItem → Fields
undo_request round show generation its = fields_via_json round show (undo_reply show generation its)

read_maps :
    (env : Env) (round : ℤ → ℤ) (show : ℕ → String) (its : List UndoItem)
    → ((u : ℕ) → env.parse (trim (show u)) ≡ some u)
    → Rounds round
    → All IsStored its
    → parse_values env (values_via_json round show (maps show its)) ≡ its
unfolding parse_values via_json
read_maps env round show [] shown rounds h = refl
read_maps env round show (it ∷ its) shown rounds h =
    ap₂ cons_item (read_map env round show it shown rounds h.0)
      (read_maps env round show its shown rounds h.1)

-- A request that sends back, through JSON, the undo of a reply is read as the generation and the rows that
-- the reply was made of, whoever asked for them. The rows are as a queue holds them (a track, an origin, no
-- nil user or blank Discord user), the generation and the positions are below 2^53, where JSON keeps an
-- integer as it is, and a printed UUID can be parsed.
pub undo_request-read :
    (env : Env) (round : ℤ → ℤ) (show : ℕ → String) (generation : ℕ) (its : List UndoItem)
    → ((u : ℕ) → env.parse (trim (show u)) ≡ some u)
    → Rounds round
    → IsExact (pos generation)
    → All IsStored its
    → (parse_undo_items env (undo_request round show generation its) ≡ its)
      × (undo_generation (undo_request round show generation its) ≡ some (pos generation))
unfolding parse_undo_items undo_generation get extra_int via_json
undo_request-read env round show generation its shown rounds small h = (
  read_maps env round show its shown rounds h,
  rw (truncate-round round (pos generation) rounds small) refl,
)
