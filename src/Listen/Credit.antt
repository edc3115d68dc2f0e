-- ===== src/Listen/Credit.antt =====
-- internal/listen/credit.go: how much of a checkpoint counts as listened.
use sound_dock.Base.{
  ℕ, ◌+◌, ◌-◌, ◌/◌, ◌^◌, ℤ, pos, ltb_ℤ, at_least, at_most, sub_int64, floor_zero, Bool, true, false,
  not, ◌&&◌, ◌||◌, Option, none, some, String, str_eq, ltb, if◌then◌else◌,
}

-- FSM: the listening of one user to one playback instance. The zero time is `none`.
pub record Fsm : Type 0 where
  pub track : ℕ
  pub accumulated : ℕ
  pub last_position : ℤ
  pub last_sequence : ℤ
  pub last_checkpoint : Option ℕ
  pub qualified : Bool
  pub skipped : Bool
  pub last_output : String
  pub started_at : Option ℕ

-- `HoldsBrowserLease`.
abbrev pub holds_browser_lease : String → String → String → String → Bool
holds_browser_lease kind renderer client device =
    str_eq kind "browser"
    && not (str_eq renderer "")
    && (str_eq renderer client || (not (str_eq device "") && str_eq renderer device))

abbrev pub listens : String → String → String → String → String → Bool
listens kind renderer_kind renderer client device =
    str_eq kind "skip"
    || (not (str_eq renderer_kind "discord")
        && holds_browser_lease renderer_kind renderer client device)

-- `IsAudioListener`.
abbrev pub is_audio_listener : String → String → String → String → String → Option Bool → Bool
is_audio_listener kind renderer_kind renderer client device none =
    listens kind renderer_kind renderer client device
is_audio_listener kind renderer_kind renderer client device (some forced) = forced

-- `outputOf`.
abbrev pub output_of : String → String
output_of kind = if str_eq kind "browser" || str_eq kind "discord" then kind else ""

-- `playingStatus`.
abbrev pub playing_status : String → Bool
playing_status s = str_eq s "" || str_eq s "playing"

abbrev pub max_credit : ℕ
max_credit = 5000

abbrev pub max_gap : ℕ
max_gap = 15000

pub record Credited : Type 0 where
  pub credit : ℕ
  pub next : Fsm
  pub is_dropped : Bool

abbrev pub credits : ℕ → Fsm → Credited
credits n st = record {
  credit = n;
  next = record st { accumulated = st.accumulated + n };
  is_dropped = false;
}

-- The first checkpoint: a position within the first seconds counts.
abbrev pub first_credit : ℤ → String → ℕ → Fsm → Credited
first_credit position status now st =
    credits
      (if playing_status status && not (ltb_ℤ (pos max_credit) position)
        then floor_zero position
        else 0)
      (record st { last_checkpoint = some now; last_position = position })

-- The step forward, as far as the wall clock allows it; a leap counts nothing.
abbrev pub step_credit : ℤ → ℤ → ℕ
step_credit forward cap =
    if ltb_ℤ cap forward && ltb_ℤ (pos max_credit) forward
    then 0
    else floor_zero (at_most (pos max_credit) (at_most cap forward))

-- `wall`: milliseconds since the last checkpoint.
abbrev pub wall_ms : ℕ → ℕ → ℕ
wall_ms last now = (now - last) / 1000000

-- A float64 is its count of 2⁻¹⁰⁷⁴.
abbrev pub rate_or_one : ℤ → ℤ
rate_or_one rate = if ltb_ℤ (pos 0) rate then rate else pos (2 ^ 1074)

abbrev pub with_sequence : ℤ → Fsm → Fsm
with_sequence sequence st =
    if ltb_ℤ (pos 0) sequence then record st { last_sequence = sequence } else st

abbrev pub is_stale : ℤ → Fsm → Bool
is_stale sequence st =
    ltb_ℤ (pos 0) sequence
    && (ltb_ℤ (pos 0) st.last_sequence && not (ltb_ℤ st.last_sequence sequence))

-- `scale rate wall` stands for `int(float64(wall) * rate * wallSlack)`.
module _ (scale : ℤ → ℕ → ℤ) where
  abbrev pub next_credit : ℤ → String → ℤ → ℕ → ℕ → Fsm → Credited
  next_credit position status rate last now st =
      let wall = wall_ms last now in
      credits
        (if playing_status status && not (ltb max_gap wall) && ltb_ℤ st.last_position position
          then step_credit (sub_int64 position st.last_position)
              (at_least (pos 0) (scale (rate_or_one rate) wall))
          else 0)
        (record st { last_checkpoint = some now; last_position = position })

  abbrev pub credit_since : Option ℕ → ℤ → String → ℤ → ℕ → Fsm → Credited
  credit_since none position status rate now st = first_credit position status now st
  credit_since (some last) position status rate now st =
      next_credit position status rate last now st

  -- `Credit`.
  unfoldable pub credit : Fsm → ℤ → ℤ → String → ℤ → ℕ → Credited
  credit st position sequence status rate now =
      if is_stale sequence st
      then record { credit = 0; next = st; is_dropped = true }
      else credit_since st.last_checkpoint position status rate now (with_sequence sequence st)
