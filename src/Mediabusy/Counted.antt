-- ===== src/Mediabusy/Counted.antt =====
-- The counts of a Set are those of the releases that are still to be called (internal/mediabusy/busy.go).
use sound_dock.Base.{
  ℕ, zero, suc, ◌+◌, ◌-◌, ◌≡◌, ◌≢◌, refl, inl, inr, Bool, true, false, not, ◌&&◌, Option, none,
  some, List, [], ◌∷◌, ltb, ◌==◌, Bool-cases, arith,
}
use sound_dock.Mediabusy.{
  Counts, value, hold, release, is_held, Ticket, Room, Use, spend, ticket_at, call, use_set,
  use_all,
}

abbrev pub one_if : Bool → ℕ
one_if true = 1
one_if false = 0

-- The releases of a track that are still to be called.
abbrev pub outstanding : ℕ → List Ticket → ℕ
outstanding id [] = 0
outstanding id (t ∷ ts) = one_if (t.track == id && not t.spent) + outstanding id ts

outstanding-spend :
    (id i : ℕ) (ts : List Ticket) (t : Ticket)
    → ticket_at i ts ≡ some t
    → t.spent ≡ false
    → outstanding id ts ≡ one_if (t.track == id) + outstanding id (spend i ts)
outstanding-spend id i [] t e unspent = cc
outstanding-spend id zero (q ∷ ts) t e unspent = ground arith
outstanding-spend id (suc i) (q ∷ ts) t e unspent =
    omega (arith, outstanding-spend id i ts t e unspent)

abbrev IsCounted : Room → Type 0
IsCounted r = (id : ℕ) → id ≢ 0 → value (r.counts id) ≡ outstanding id r.tickets

hold-value :
    (id track : ℕ) (counts : Counts)
    → id ≢ 0
    → value (hold track counts id) ≡ one_if (track == id) + value (counts id)
unfolding hold
hold-value id track counts named = ground arith

release-value :
    (id track : ℕ) (counts : Counts)
    → id ≢ 0
    → value (release track counts id) ≡ value (counts id) - one_if (track == id)
unfolding release
release-value id track counts named = ground arith

call-IsCounted :
    (t : Option Ticket) (i : ℕ) (r : Room)
    → ticket_at i r.tickets ≡ t
    → IsCounted r
    → IsCounted (call t i r)
call-IsCounted none i r e c = c
call-IsCounted (some t) i r e c = elim (Bool-cases (t.spent)) [
  | inl spent ↦ rw spent c
  | inr unspent ↦ rw unspent (λ id named. omega (
    arith,
    release-value id t.track r.counts named,
    c id named,
    outstanding-spend id i r.tickets t e unspent,
  ))
]

use_set-IsCounted : (u : Use) (r : Room) → IsCounted r → IsCounted (use_set u r)
unfolding use_set
use_set-IsCounted (Use.holds_track track) r c =
    λ id named. ground (arith, hold-value id track r.counts named, c id named)
use_set-IsCounted (Use.calls i) r c = call-IsCounted (ticket_at i r.tickets) i r refl c

use_all-IsCounted : (us : List Use) (r : Room) → IsCounted r → IsCounted (use_all us r)
unfolding use_all
use_all-IsCounted [] r c = c
use_all-IsCounted (u ∷ us) r c = use_all-IsCounted us (use_set u r) (use_set-IsCounted u r c)

abbrev pub nobody : Room
nobody = record { counts = λ id. none; tickets = [] }

-- After any calls of `Hold` and of the functions that it returned, each of which may be called again
-- and again, a track counts as many holds as it has releases that were never called, and is held just
-- when there is one: a second call of a release takes no hold away from another stream.
pub use_all_counts :
    (us : List Use) (id : ℕ)
    → id ≢ 0
    → (value ((use_all us nobody).counts id) ≡ outstanding id (use_all us nobody).tickets)
      × (is_held id (use_all us nobody).counts ≡ ltb 0 (outstanding id (use_all us nobody).tickets))
use_all_counts us id named =
    let counted = use_all-IsCounted us nobody (λ j n. refl) id named in
    (counted, ground (arith, counted))
