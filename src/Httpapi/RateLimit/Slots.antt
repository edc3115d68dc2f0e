-- ===== src/Httpapi/RateLimit/Slots.antt =====
-- The slots of a key (`Slots` of internal/httpapi/ratelimit/limit.go).
use text.Mathlib.TextEquality.{eq_iff}
use text.Mathlib.TextPositions.{eq_refl}
use sound_dock.Base.{
  ◌+◌, ◌≤◌, ◌≡◌, refl, ap, sym, subst, inl, inr, Bool-cases, true, some, String, str_eq, List, [],
  ◌∷◌, arith,
}
use sound_dock.Httpapi.RateLimit.{SlotTable, acquire, release, held, set}

pub data SlotOp : Type 0 where
  take give : String → SlotOp

abbrev pub after_op : SlotOp → SlotTable → SlotTable
after_op (SlotOp.take key) s = (acquire key s).0
after_op (SlotOp.give key) s = release key s

abbrev pub run : List SlotOp → SlotTable → SlotTable
run [] s = s
run (op ∷ ops) s = run ops (after_op op s)

after_op-limit : (op : SlotOp) (s : SlotTable) → (after_op op s).limit ≡ s.limit
unfolding acquire release
after_op-limit (SlotOp.take key) s = ground arith
after_op-limit (SlotOp.give key) s = refl

after_op-le :
    (op : SlotOp) (s : SlotTable) (j : String)
    → held (s.cur j) ≤ s.limit
    → ((k : String) → held (s.cur k) ≤ s.limit)
    → held ((after_op op s).cur j) ≤ s.limit
unfolding acquire release
after_op-le (SlotOp.take key) s j h all = ground (arith, all key)
after_op-le (SlotOp.give key) s j h all = ground (arith, all key)

-- Whatever streams begin and end, and in whatever order, no key ever holds more slots than the limit.
pub slots-le :
    (ops : List SlotOp) (s : SlotTable) (j : String)
    → ((k : String) → held (s.cur k) ≤ s.limit)
    → held ((run ops s).cur j) ≤ s.limit
slots-le [] s j h = h j
slots-le (op ∷ ops) s j h =
    subst (λ n. held ((run ops (after_op op s)).cur j) ≤ n) (after_op-limit op s)
      (slots-le ops (after_op op s) j (λ k.
        subst (λ n. held ((after_op op s).cur k) ≤ n) (sym (after_op-limit op s))
          (after_op-le op s k (h k) h)))

acquired :
    (key : String) (s s' : SlotTable)
    → acquire key s ≡ (s', true)
    → s'.cur ≡ set key (some (held (s.cur key) + 1)) s.cur
unfolding acquire
acquired key s s' e = ground arith

-- A slot that was acquired and released leaves every count as it was.
pub slot_returns :
    (key j : String) (s s' : SlotTable)
    → acquire key s ≡ (s', true)
    → held ((release key s').cur j) ≡ held (s.cur j)
unfolding release
slot_returns key j s s' e = elim (Bool-cases (str_eq j key)) [
  | inl same ↦
      rw (acquired key s s' e, same, eq_refl key)
        (ground (arith, ap (λ k. held (s.cur k)) ((eq_iff j key).0 same)))
  | inr other ↦ rw (acquired key s s' e, other) refl
]
