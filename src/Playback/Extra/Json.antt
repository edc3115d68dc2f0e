-- ===== src/Playback/Extra/Json.antt =====
-- What the JSON of a reply and of a request makes of a value: json.Marshal, and json.Unmarshal into an
-- `any`, as the handler of a control request reads it (internal/httpapi/queue.go).
use sound_dock.Base.{
  ℕ, suc, ◌-◌, ◌*◌, ◌<◌, ◌^◌, ◌≡◌, ℤ, pos, negsuc, pos_part, neg_part, List, [], ◌∷◌, String, arith,
}
use sound_dock.Playback.Extra.{
  Value, float, int, text, uuid, uuids, texts, list, dict, Values, nil, cons, Fields, end, field,
  float_one, truncate,
}

-- An integer in the units of a float64.
pub scaled : ℤ → ℤ
unfolding float_one
scaled (pos n) = pos (n * float_one)
scaled (negsuc n) = negsuc (suc n * float_one - 1)

pub truncate-scaled : (n : ℤ) → truncate (scaled n) ≡ n
unfolding truncate scaled float_one
truncate-scaled (pos n) = ground arith
truncate-scaled (negsuc n) = ground arith

-- The integers that a float64 holds without rounding.
abbrev pub IsExact : ℤ → Type 0
IsExact n = (pos_part n < 2 ^ 53) × (neg_part n < 2 ^ 53)

-- `round` is the float64 next to an integer, and `show` is `UUID.String`.
module _ (round : ℤ → ℤ) (show : ℕ → String) where
  pub shown_all : List ℕ → Values
  shown_all [] = nil
  shown_all (u ∷ us) = cons (text (show u)) (shown_all us)

  pub text_all : List String → Values
  text_all [] = nil
  text_all (s ∷ ss) = cons (text s) (text_all ss)

  -- A number comes back as a float64, an identifier as a text, and a slice as a []any.
  unfoldable mutual
    pub via_json : Value → Value
    via_json (int n) = float (round n)
    via_json (uuid u) = text (show u)
    via_json (uuids us) = list (shown_all us)
    via_json (texts ss) = list (text_all ss)
    via_json (list vs) = list (values_via_json vs)
    via_json (dict fs) = dict (fields_via_json fs)
    via_json v = v

    pub values_via_json : Values → Values
    values_via_json nil = nil
    values_via_json (cons v vs) = cons (via_json v) (values_via_json vs)

    pub fields_via_json : Fields → Fields
    fields_via_json end = end
    fields_via_json (field k v fs) = field k (via_json v) (fields_via_json fs)
