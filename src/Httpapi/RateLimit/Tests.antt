-- ===== src/Httpapi/RateLimit/Tests.antt =====
-- A client of the search and its streams.
use sound_dock.Base.{◌≡◌, refl, true, none, [], ◌∷◌, arith}
use sound_dock.Httpapi.RateLimit.{Class, Limiter, new_limiter, allow, SlotTable, acquire}
use sound_dock.Httpapi.RateLimit.Windows.{grants, grants-window, allow-other}

-- Two searches per window.
abbrev tight : Limiter
tight = record new_limiter { limit = λ class. 2 }

grants-window_example : grants Class.search "ann" (10 ∷ 20 ∷ 30 ∷ []) tight ≡ 2
grants-window_example =
    grants-window Class.search "ann" 10 (20 ∷ 30 ∷ []) tight refl tt
      (omega arith, (omega arith, tt))

allow-other_example : (allow 10 Class.search "ann" tight).0.data_of "search|bob" ≡ none
allow-other_example = allow-other 10 Class.search "ann" "search|bob" tight refl

abbrev empty : SlotTable
empty = record { cur = λ k. none; limit = 1 }

takes : acquire "ann" empty ≡ ((acquire "ann" empty).0, true)
unfolding acquire
takes = refl
