-- ===== src/Mediabusy.antt =====
-- internal/mediabusy: which tracks have an open stream or decoder. busy.go counts them in memory, and
-- store.go keeps holds with a lease in the table media_holds. A track is a number and uuid.Nil is 0.
pub mod Counted
mod Tests
use sound_dock.Base.{
  ℕ, zero, suc, ◌+◌, ◌-◌, Bool, true, false, not, ◌&&◌, ◌||◌, Option, none, some, List, [], ◌∷◌,
  ◌++◌, String, str_eq, ltb, ◌==◌, if◌then◌else◌, any, keep, update,
}

-- `n` of a Set.
abbrev pub Counts : Type 0
Counts = ℕ → Option ℕ

abbrev pub value : Option ℕ → ℕ
value none = 0
value (some n) = n

abbrev pub put : ℕ → Option ℕ → Counts → Counts
put id n counts j = if j == id then n else counts j

-- `Hold`, without the release that it returns.
unfoldable pub hold : ℕ → Counts → Counts
hold id counts = if id == 0 then counts else put id (some (value (counts id) + 1)) counts

-- `release`: below one the key goes.
unfoldable pub release : ℕ → Counts → Counts
release id counts =
    if id == 0
    then counts
    else (let n = value (counts id) - 1 in
        if n == 0 then put id none counts else put id (some n) counts)

-- `Contains`.
abbrev pub is_held : ℕ → Counts → Bool
is_held id counts = not (id == 0) && ltb 0 (value (counts id))

-- A release function that `Hold` has returned: its track, and whether its `Once` is spent.
pub record Ticket : Type 0 where
  pub track : ℕ
  pub spent : Bool

pub record Room : Type 0 where
  pub counts : Counts
  pub tickets : List Ticket

-- Calls of `Hold`, and calls of the release function at a place among those returned.
pub data Use : Type 0 where
  holds_track : ℕ → Use
  calls : ℕ → Use

abbrev pub spend : ℕ → List Ticket → List Ticket
spend i [] = []
spend zero (t ∷ ts) = record t { spent = true } ∷ ts
spend (suc i) (t ∷ ts) = t ∷ spend i ts

abbrev pub ticket_at : ℕ → List Ticket → Option Ticket
ticket_at i [] = none
ticket_at zero (t ∷ ts) = some t
ticket_at (suc i) (t ∷ ts) = ticket_at i ts

abbrev pub call : Option Ticket → ℕ → Room → Room
call none i r = r
call (some t) i r =
    if t.spent then r else record { counts = release t.track r.counts; tickets = spend i r.tickets }

unfoldable pub use_set : Use → Room → Room
use_set (Use.holds_track id) r = record {
  counts = hold id r.counts;
  tickets = record { track = id; spent = false } ∷ r.tickets;
}
use_set (Use.calls i) r = call (ticket_at i r.tickets) i r

unfoldable pub use_all : List Use → Room → Room
use_all [] r = r
use_all (u ∷ us) r = use_all us (use_set u r)

-- A row of media_holds; its holder is a UUID with the prefix of its kind.
pub record Lease : Type 0 where
  pub track : ℕ
  pub kind : String
  pub holder : String
  pub lease_until : ℕ

-- HoldTTL, in seconds.
abbrev pub hold_ttl : ℕ
hold_ttl = 45

abbrev pub is_lease : String → String → Lease → Bool
is_lease kind holder l = str_eq l.kind kind && str_eq l.holder holder

-- `upsert`, `Heartbeat`, `UpdateTrack`, `Release` and `Sweep`, of a set with a database.
unfoldable pub upsert : ℕ → ℕ → String → String → List Lease → List Lease
upsert now track kind holder leases =
    if any (is_lease kind holder) leases
    then update (is_lease kind holder)
        (λ l. record l { track = track; lease_until = now + hold_ttl }) leases
    else leases
      ++ (record { track = track; kind = kind; holder = holder; lease_until = now + hold_ttl } ∷ [])

unfoldable pub heartbeat : ℕ → String → String → List Lease → List Lease
heartbeat now kind holder leases =
    if str_eq holder ""
    then leases
    else update (is_lease kind holder) (λ l. record l { lease_until = now + hold_ttl }) leases

unfoldable pub update_track : ℕ → String → String → ℕ → List Lease → List Lease
update_track now kind holder track leases =
    if str_eq holder "" || track == 0
    then leases
    else update (is_lease kind holder)
        (λ l. record l { track = track; lease_until = now + hold_ttl }) leases

unfoldable pub release_lease : String → String → List Lease → List Lease
release_lease kind holder leases =
    if str_eq holder "" then leases else keep (λ l. not (is_lease kind holder l)) leases

unfoldable pub sweep : ℕ → List Lease → List Lease
sweep now leases = keep (λ l. not (ltb l.lease_until now)) leases

-- `Busy`.
abbrev pub is_busy : ℕ → ℕ → Counts → List Lease → Bool
is_busy now track counts leases =
    is_held track counts
    || (not (track == 0) && any (λ l. l.track == track && ltb now l.lease_until) leases)
