-- ===== src/Httpapi/RateLimit.antt =====
-- internal/httpapi/ratelimit/limit.go: fixed windows per class and key, and slots for streams. Each
-- method runs under its mutex, so that calls follow one another. A time is a number of nanoseconds.
pub mod Windows
pub mod Slots
mod Tests
use Prim.Native.String.{◌++◌}
use sound_dock.Base.{
  ℕ, ◌+◌, ◌-◌, ◌*◌, Bool, true, false, Option, none, some, String, str_eq, ltb, leb, ◌==◌,
  if◌then◌else◌,
}

pub data Class : Type 0 where
  auth search metadata admin integration external stream : Class

abbrev pub class_name : Class → String
class_name Class.auth = "auth"
class_name Class.search = "search"
class_name Class.metadata = "metadata"
class_name Class.admin = "admin"
class_name Class.integration = "integration"
class_name Class.external = "external"
class_name Class.stream = "stream"

pub record Window : Type 0 where
  pub n : ℕ
  pub reset : ℕ

-- `limit` and `every` never change after `New`.
pub record Limiter : Type 0 where
  pub data_of : String → Option Window
  pub limit : Class → ℕ
  pub every : ℕ

abbrev pub minute : ℕ
minute = 60 * 1000000000

abbrev pub limits : Class → ℕ
limits Class.auth = 20
limits Class.search = 120
limits Class.metadata = 60
limits Class.admin = 120
limits Class.integration = 300
limits Class.external = 40
limits Class.stream = 8

-- `New`.
abbrev pub new_limiter : Limiter
new_limiter = record { data_of = λ k. none; limit = limits; every = minute }

-- `string(class) + "|" + key`.
abbrev pub window_key : Class → String → String
window_key class key = class_name class ++ "|" ++ key

abbrev pub set {ℓ} : {A : Type ℓ} → String → A → (String → A) → String → A
set k a m j = if str_eq j k then a else m j

abbrev pub write : String → Window → Limiter → Limiter
write k w l = record l { data_of = set k (some w) l.data_of }

-- `if max == 0 { max = 120 }`.
abbrev pub max_of : Limiter → Class → ℕ
max_of l class = if l.limit class == 0 then 120 else l.limit class

abbrev pub is_stream : Class → Bool
is_stream Class.stream = true
is_stream _ = false

abbrev pub fresh_window : ℕ → String → Limiter → Limiter × Bool
fresh_window now k l = (write k (record { n = 1; reset = now + l.every }) l, true)

abbrev pub count_in : ℕ → Class → String → Option Window → Limiter → Limiter × Bool
count_in now class k none l = fresh_window now k l
count_in now class k (some w) l =
    if ltb w.reset now
    then fresh_window now k l
    else (if leb (max_of l class) w.n
        then (l, false)
        else (write k (record w { n = w.n + 1 }) l, true))

-- `Allow`.
pub allow : ℕ → Class → String → Limiter → Limiter × Bool
allow now class key l =
    if is_stream class
    then (l, true)
    else count_in now class (window_key class key) (l.data_of (window_key class key)) l

-- `Slots`; a key that is not in the map counts 0.
pub record SlotTable : Type 0 where
  pub cur : String → Option ℕ
  pub limit : ℕ

abbrev pub held : Option ℕ → ℕ
held none = 0
held (some n) = n

-- `Acquire`.
pub acquire : String → SlotTable → SlotTable × Bool
acquire key s =
    if leb s.limit (held (s.cur key))
    then (s, false)
    else (record s { cur = set key (some (held (s.cur key) + 1)) s.cur }, true)

-- `Release`: a count that falls to 0 or below is deleted.
pub release : String → SlotTable → SlotTable
release key s = record s {
  cur = set key (if leb (held (s.cur key)) 1 then none else some (held (s.cur key) - 1)) s.cur;
}
