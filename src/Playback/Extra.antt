-- ===== src/Playback/Extra.antt =====
-- internal/playback/extra.go: reading the `extra map[string]any` of a control request.
pub mod Json
mod Tests
use Prim.Native.Char.{Char, code}
use sound_dock.Base.{
  ℕ, zero, suc, ◌+◌, ◌-◌, ◌*◌, ◌/◌, ◌^◌, ℤ, pos, negsuc, Bool, true, false, ◌&&◌, ◌||◌, Option,
  none, some, String, str_eq, List, [], ◌∷◌, ltb, leb, ◌==◌, if◌then◌else◌,
}
use sound_dock.Playback.Session.{nil_uuid}

-- The dynamic types that the readers tell apart. A float64 is its count of 2⁻¹⁰⁷⁴; a UUID is a number.
mutual
  pub data Value : Type 0 where
    null : Value
    bool : Bool → Value
    float : ℤ → Value
    int : ℤ → Value
    number : String → Value
    text : String → Value
    uuid : ℕ → Value
    uuids : List ℕ → Value
    texts : List String → Value
    list : Values → Value
    dict : Fields → Value

  pub data Values : Type 0 where
    nil : Values
    cons : Value → Values → Values

  pub data Fields : Type 0 where
    end : Fields
    field : String → Value → Fields → Fields

-- `m[key]`; a key that is not there is `null`, which every reader treats alike.
unfoldable pub get : String → Fields → Value
get k end = null
get k (field j v fs) = if str_eq j k then v else get k fs

-- `m[key] = v` on a key that is not there.
abbrev pub put : String → Value → Fields → Fields
put k v fs = field k v fs

is_digit : ℕ → Bool
is_digit c = leb b'0' c && leb c b'9'

-- The digits to the end of the text; `none` if another character comes.
pub digits : ℕ → String → Option ℕ
unfolding is_digit
digits acc String.[] = some acc
digits acc (String.◌∷◌ c s) =
    let rest = digits (acc * 10 + (code c - b'0')) s in if is_digit (code c) then rest else none

pub all_digits : String → Option ℕ
unfolding digits
all_digits String.[] = none
all_digits (String.◌∷◌ c s) = digits 0 (String.◌∷◌ c s)

-- The range of an int64.
abbrev pub int_max : ℕ
int_max = 9223372036854775807

pub positive : Option ℕ → Option ℤ
positive none = none
positive (some n) = if leb n int_max then some (pos n) else none

pub negative : Option ℕ → Option ℤ
negative none = none
negative (some zero) = some (pos 0)
negative (some (suc n)) = if leb n int_max then some (negsuc n) else none

-- `strconv.Atoi` and `json.Number.Int64`: base ten, an optional sign, within the range.
pub atoi : String → Option ℤ
unfolding all_digits positive negative
atoi String.[] = none
atoi (String.◌∷◌ c s) =
    if code c == b'-'
    then negative (all_digits s)
    else (if code c == b'+'
        then positive (all_digits s)
        else positive (all_digits (String.◌∷◌ c s)))

-- One, in the units of a float64.
pub float_one : ℕ
float_one = 2 ^ 1074

-- `int(f)`: towards zero.
pub truncate : ℤ → ℤ
unfolding float_one
truncate (pos u) = pos (u / float_one)
truncate (negsuc u) = let n = suc u / float_one in if n == 0 then pos 0 else negsuc (n - 1)

unfoldable pub extra_int : String → Fields → Option ℤ
unfolding get truncate atoi
extra_int k fs = elim (get k fs) [
  | float f ↦ some (truncate f)
  | int n ↦ some n
  | number s ↦ atoi s
  | text s ↦ atoi s
  | _ ↦ none
]

unfoldable pub extra_string : String → Fields → String
unfolding get
extra_string k fs = elim (get k fs) [ text s ↦ s | _ ↦ "" ]

pub bool_of_text : String → Option Bool
bool_of_text s =
    if str_eq s "true" then some true else (if str_eq s "false" then some false else none)

unfoldable pub extra_bool : String → Fields → Option Bool
unfolding get bool_of_text
extra_bool k fs = elim (get k fs) [ bool b ↦ some b | text s ↦ bool_of_text s | _ ↦ none ]

-- `if v, ok := extraBool(…); ok && v`.
abbrev pub is_set : Option Bool → Bool
is_set none = false
is_set (some b) = b

abbrev pub cons_some : Option ℕ → List ℕ → List ℕ
cons_some none xs = xs
cons_some (some x) xs = x ∷ xs

-- `parse` stands for `uuid.Parse`.
module _ (parse : String → Option ℕ) where
  pub parse_texts : List String → List ℕ
  parse_texts [] = []
  parse_texts (s ∷ ss) = cons_some (parse s) (parse_texts ss)

  pub value_uuid : Value → Option ℕ
  value_uuid (uuid u) = some u
  value_uuid (text s) = parse s
  value_uuid _ = none

  pub values_uuids : Values → List ℕ
  unfolding value_uuid
  values_uuids nil = []
  values_uuids (cons v vs) = cons_some (value_uuid v) (values_uuids vs)

  pub extra_uuids : String → Fields → List ℕ
  unfolding get parse_texts values_uuids
  extra_uuids k fs = elim (get k fs) [
    | uuids us ↦ us
    | texts ss ↦ parse_texts ss
    | list vs ↦ values_uuids vs
    | _ ↦ []
  ]

-- `unicode.IsSpace`.
unfoldable pub is_space : ℕ → Bool
is_space c =
    (leb 9 c && leb c 13)
    || c == 32
    || c == 0x85
    || c == 0xA0
    || c == 0x1680
    || (leb 0x2000 c && leb c 0x200A)
    || c == 0x2028
    || c == 0x2029
    || c == 0x202F
    || c == 0x205F
    || c == 0x3000

abbrev pub trim_cons : Bool → Char → String → String
trim_cons true c String.[] = String.[]
trim_cons true c (String.◌∷◌ d s) = String.◌∷◌ c (String.◌∷◌ d s)
trim_cons false c s = String.◌∷◌ c s

unfoldable pub trim_right : String → String
unfolding is_space
trim_right String.[] = String.[]
trim_right (String.◌∷◌ c s) = trim_cons (is_space (code c)) c (trim_right s)

unfoldable pub trim_left : String → String
unfolding is_space
trim_left String.[] = String.[]
trim_left (String.◌∷◌ c s) =
    let rest = trim_left s in if is_space (code c) then rest else String.◌∷◌ c s

-- `strings.TrimSpace`.
unfoldable pub trim : String → String
unfolding trim_left trim_right
trim s = trim_right (trim_left s)
