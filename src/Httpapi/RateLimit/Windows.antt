-- ===== src/Httpapi/RateLimit/Windows.antt =====
-- How many requests a window grants (`Limiter.Allow` of internal/httpapi/ratelimit/limit.go).
use text.Mathlib.TextPositions.{eq_refl}
use sound_dock.Base.{
  ℕ, suc, ◌+◌, ◌-◌, ◌≤◌, ◌<◌, ◌≡◌, refl, inl, inr, true, false, Option, none, some, String, str_eq,
  List, [], ◌∷◌, All, length, leb, if◌then◌else◌, arith, Bool-cases,
}
use sound_dock.Httpapi.RateLimit.{
  Class, Window, Limiter, allow, count_in, fresh_window, window_key, write, max_of, is_stream,
}

-- The requests of one client at the given times, and how many of them pass.
abbrev pub grants : Class → String → List ℕ → Limiter → ℕ
grants class key [] l = 0
grants class key (t ∷ ts) l =
    let (l', granted) = allow t class key l in
    let rest = grants class key ts l' in if granted then suc rest else rest

count_in-full :
    (t : ℕ) (class : Class) (k : String) (w : Window) (l : Limiter)
    → t ≤ w.reset
    → max_of l class ≤ w.n
    → count_in t class k (some w) l ≡ (l, false)
count_in-full t class k w l now full = ground arith

count_in-room :
    (t : ℕ) (class : Class) (k : String) (w : Window) (l : Limiter)
    → t ≤ w.reset
    → w.n < max_of l class
    → count_in t class k (some w) l ≡ (write k (record w { n = w.n + 1 }) l, true)
count_in-room t class k w l now room = ground arith

allow-in :
    (t : ℕ) (class : Class) (key : String) (w : Option Window) (l : Limiter)
    → is_stream class ≡ false
    → l.data_of (window_key class key) ≡ w
    → allow t class key l ≡ count_in t class (window_key class key) w l
unfolding allow
allow-in t class key w l s e = rw (s, e) refl

written : (k : String) (w : Window) (l : Limiter) → (write k w l).data_of k ≡ some w
written k w l = rw (eq_refl k) refl

-- In an open window.
grants-open :
    (class : Class) (key : String) (ts : List ℕ) (w : Window) (l : Limiter)
    → is_stream class ≡ false
    → l.data_of (window_key class key) ≡ some w
    → w.n ≤ max_of l class
    → All (λ t. t ≤ w.reset) ts
    → grants class key ts l
      ≡ (if leb (w.n + length ts) (max_of l class) then length ts else max_of l class - w.n)
grants-open class key [] w l s e room h = ground arith
grants-open class key (t ∷ ts) w l s e room h = elim (Bool-cases (leb (max_of l class) w.n)) [
  | inl full ↦
      rw
        (
          allow-in t class key (some w) l s e,
          count_in-full t class (window_key class key) w l h.0 (ground arith),
        )
        (ground (arith, grants-open class key ts w l s e room h.1))
  | inr open_still ↦
      let k = window_key class key in
      let w' : Window = record w { n = w.n + 1 } in
      rw (allow-in t class key (some w) l s e, count_in-room t class k w l h.0 (ground arith))
        (ground
          (arith, grants-open class key ts w' (write k w' l) s (written k w' l) (ground arith) h.1))
]

-- No window of the key is open at a time.
abbrev pub IsClosed : ℕ → Option Window → Type 0
IsClosed t none = Unit {0}
IsClosed t (some w) = w.reset < t

count_in-fresh :
    (t : ℕ) (class : Class) (k : String) (w : Option Window) (l : Limiter)
    → IsClosed t w
    → count_in t class k w l ≡ fresh_window t k l
count_in-fresh t class k none l closed = refl
count_in-fresh t class k (some w) l closed = ground arith

-- From the first request after a closed window on, and for the length of a window, a client gets as
-- many requests of a class through as it sends, up to the limit of the class (120 if that is 0), and no
-- more. Streams are not counted here.
pub grants-window :
    (class : Class) (key : String) (t : ℕ) (ts : List ℕ) (l : Limiter)
    → is_stream class ≡ false
    → IsClosed t (l.data_of (window_key class key))
    → All (λ u. u ≤ t + l.every) ts
    → grants class key (t ∷ ts) l
      ≡ (if leb (length (t ∷ ts)) (max_of l class) then length (t ∷ ts) else max_of l class)
grants-window class key t ts l s closed h =
    let k = window_key class key in
    let w : Window = record { n = 1; reset = t + l.every } in
    rw
      (allow-in t class key (l.data_of k) l s refl, count_in-fresh t class k (l.data_of k) l closed)
      (ground (arith, grants-open class key ts w (write k w l) s (written k w l) (ground arith) h))

-- A request of one key leaves the windows of every other key.
pub allow-other :
    (t : ℕ) (class : Class) (key j : String) (l : Limiter)
    → str_eq j (window_key class key) ≡ false
    → (allow t class key l).0.data_of j ≡ l.data_of j
unfolding allow
allow-other t class key j l other = ground arith
