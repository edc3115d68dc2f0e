-- ===== src/Listen/Fair.antt =====
-- Nobody is credited faster than the wall clock allows (internal/listen/credit.go).
use sound_dock.Base.{
  ℕ, ◌+◌, ◌*◌, ◌-◌, ◌/◌, ◌≤◌, ◌^◌, ◌≡◌, refl, ℤ, pos, ltb_ℤ, at_least, sub_int64, floor_zero, Bool,
  true, false, not, ◌&&◌, Option, none, some, List, [], ◌∷◌, String, ltb, if◌then◌else◌, if-either,
  arith, subst, sym,
}
use sound_dock.Listen.Credit.{
  Fsm, Credited, credit, credit_since, first_credit, next_credit, step_credit, wall_ms, max_gap,
  rate_or_one, with_sequence, is_stale, playing_status,
}

-- A checkpoint as `Credit` takes it.
pub record Message : Type 0 where
  pub position : ℤ
  pub sequence : ℤ
  pub status : String
  pub rate : ℤ
  pub at : ℕ

-- The rate 1.
abbrev pub normal : ℤ
normal = pos (2 ^ 1074)

-- Messages in the order of their instants, up to an instant, at the normal rate (or none).
abbrev pub IsInOrder : ℕ → ℕ → List Message → Type 0
IsInOrder from until [] = Unit {0}
IsInOrder from until (m ∷ ms) =
    (from ≤ m.at) × (m.at ≤ until) × (rate_or_one m.rate ≡ normal) × IsInOrder m.at until ms

abbrev pub unheard : Fsm
unheard = record {
  track = 0;
  accumulated = 0;
  last_position = pos 0;
  last_sequence = pos 0;
  last_checkpoint = none;
  qualified = false;
  skipped = false;
  last_output = "";
  started_at = none;
}

step_credit-le : (forward : ℤ) (cap : ℤ) → step_credit forward cap ≤ floor_zero cap
step_credit-le forward cap = ground arith

-- What is accumulated, with the first seconds and a quarter more than the time since `first`.
abbrev Earned : ℕ → ℕ → ℕ → Type 0
Earned accumulated first now = accumulated * 4000000 ≤ 20000000000 + 5 * (now - first)

abbrev IsFair : ℕ → ℕ → Option ℕ → ℕ → Type 0
IsFair first now none accumulated = accumulated ≡ 0
IsFair first now (some last) accumulated =
    (first ≤ last) × (last ≤ now) × Earned accumulated first last

first_credit-Earned :
    (first : ℕ) (m : Message) (st : Fsm)
    → st.accumulated ≡ 0
    → Earned (first_credit m.position m.status m.at st).next.accumulated first m.at
first_credit-Earned first m st zero_yet = ground arith

bounded_amount :
    (playing gap ahead : Bool) (amount bound : ℕ)
    → (gap ≡ false → amount * 4000000 ≤ bound)
    → (if playing && not gap && ahead then amount else 0) * 4000000 ≤ bound
bounded_amount playing true ahead amount bound h = ground arith
bounded_amount playing false ahead amount bound h = ground (arith, h refl)

wall_ms-le : (last now : ℕ) → wall_ms last now * 1000000 ≤ now - last
wall_ms-le last now = omega arith

later :
    (first now next : ℕ) (last : Option ℕ) (n : ℕ)
    → now ≤ next
    → IsFair first now last n
    → IsFair first next last n
later first now next none n le h = h
later first now next (some last) n le (a, b, c) = (a, omega (arith, b, le), c)

within :
    (wall credit : ℕ) (cap scaled : ℤ) {span : ℕ}
    → credit ≤ floor_zero cap
    → cap ≡ at_least (pos 0) scaled
    → scaled ≡ pos (wall * 5 / 4)
    → wall * 1000000 ≤ span
    → credit * 4000000 ≤ 5 * span
within wall credit cap scaled le is_cap is_scaled long = ground arith

module _ (scale : ℤ → ℕ → ℤ) where
  abbrev pub take_message : Fsm → Message → Fsm
  take_message st m = (credit scale st m.position m.sequence m.status m.rate m.at).next

  unfoldable pub listen_all : Fsm → List Message → Fsm
  listen_all st [] = st
  listen_all st (m ∷ ms) = listen_all (take_message st m) ms

  -- At the normal rate a float64 multiplies a short time exactly.
  abbrev pub IsExact : Type 0
  IsExact = (w : ℕ) → w ≤ max_gap → scale normal w ≡ pos (w * 5 / 4)

  amount-le :
      (exact : IsExact) (position : ℤ) (status : String) (rate : ℤ) (last now : ℕ) (st : Fsm)
      → rate_or_one rate ≡ normal
      → (next_credit scale position status rate last now st).credit * 4000000 ≤ 5 * (now - last)
  amount-le exact position status rate last now st usual =
      let wall = wall_ms last now in
      let forward = sub_int64 position st.last_position in
      let cap = at_least (pos 0) (scale (rate_or_one rate) wall) in
      bounded_amount (playing_status status) (ltb max_gap wall) (ltb_ℤ st.last_position position)
        (step_credit forward cap) (5 * (now - last))
        (λ near.
          within wall (step_credit forward cap) cap (scale (rate_or_one rate) wall)
            (step_credit-le forward cap) refl (usual_cap wall rate usual (ground arith))
            (wall_ms-le last now))
    where
      usual_cap :
          (wall : ℕ) (rate : ℤ)
          → rate_or_one rate ≡ normal
          → wall ≤ max_gap
          → scale (rate_or_one rate) wall ≡ pos (wall * 5 / 4)
      usual_cap wall rate usual le =
          subst (λ r. scale r wall ≡ pos (wall * 5 / 4)) (sym usual) (exact wall le)

  credit_since-IsFair :
      (exact : IsExact) (first now : ℕ) (last : Option ℕ) (st : Fsm) (m : Message)
      → first ≤ m.at
      → now ≤ m.at
      → rate_or_one m.rate ≡ normal
      → IsFair first now last st.accumulated
      → IsFair first m.at
          (credit_since scale last m.position m.status m.rate m.at st).next.last_checkpoint
          (credit_since scale last m.position m.status m.rate m.at st).next.accumulated
  credit_since-IsFair exact first now none st m after le usual zero_yet =
      (after, omega arith, first_credit-Earned first m st zero_yet)
  credit_since-IsFair exact first now (some last) st m after le usual (a, b, earned) = (
    after,
    omega arith,
    omega (
      arith,
      a,
      b,
      le,
      earned,
      amount-le exact m.position m.status m.rate last m.at
          (record st { last_checkpoint = some last }) usual,
    ),
  )

  take_message-IsFair :
      (exact : IsExact) (first now : ℕ) (st : Fsm) (m : Message)
      → now ≤ m.at
      → first ≤ now
      → rate_or_one m.rate ≡ normal
      → IsFair first now st.last_checkpoint st.accumulated
      → IsFair first m.at (take_message st m).last_checkpoint (take_message st m).accumulated
  unfolding credit
  take_message-IsFair exact first now st m le after usual fair =
      if-either (λ (c : Credited). IsFair first m.at c.next.last_checkpoint c.next.accumulated)
        (is_stale m.sequence st) (later first now m.at st.last_checkpoint st.accumulated le fair)
        (credit_since-IsFair exact first now st.last_checkpoint (with_sequence m.sequence st) m
          (omega (arith, after, le)) le usual
          (if-either (λ (x : Fsm). IsFair first now st.last_checkpoint x.accumulated)
            (ltb_ℤ (pos 0) m.sequence) fair fair))

  listen_all-IsFair :
      (exact : IsExact) (first now until : ℕ) (st : Fsm) (ms : List Message)
      → first ≤ now
      → now ≤ until
      → IsInOrder now until ms
      → IsFair first now st.last_checkpoint st.accumulated
      → IsFair first until (listen_all st ms).last_checkpoint (listen_all st ms).accumulated
  unfolding listen_all
  listen_all-IsFair exact first now until st [] after le h fair =
      later first now until st.last_checkpoint st.accumulated le fair
  listen_all-IsFair exact first now until st (m ∷ ms) after le (a, b, usual, h) fair =
      listen_all-IsFair exact first m.at until (take_message st m) ms (omega (arith, after, a)) b h
        (take_message-IsFair exact first now st m a after usual fair)

  IsFair-Earned :
      (first until : ℕ) (last : Option ℕ) (n : ℕ) → IsFair first until last n → Earned n first until
  IsFair-Earned first until none n h = omega (arith, h)
  IsFair-Earned first until (some last) n (a, b, c) = omega (arith, a, b, c)

  -- Whatever positions a client sends at the normal rate, in the order of time, and however often it sends
  -- them, it is credited at most five seconds and five quarters of the time that went by.
  pub listen_all-Earned :
      (exact : IsExact) (first until : ℕ) (ms : List Message)
      → first ≤ until
      → IsInOrder first until ms
      → (listen_all unheard ms).accumulated * 4000000 ≤ 20000000000 + 5 * (until - first)
  listen_all-Earned exact first until ms le h =
      IsFair-Earned first until (listen_all unheard ms).last_checkpoint
        (listen_all unheard ms).accumulated
        (listen_all-IsFair exact first first until unheard ms (omega arith) le h refl)
