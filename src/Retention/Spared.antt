-- ===== src/Retention/Spared.antt =====
-- What a run of the retention never touches (internal/retention/candidates.go and engine.go).
use sound_dock.Base.{
  ℕ, zero, suc, ◌≡◌, inl, inr, subst, ℤ, pos, ltb_ℤ, add_int64, floor_zero, Bool, true, false,
  Option, none, some, List, [], ◌∷◌, if◌then◌else◌, if-either, keep, take, contains, All, All-keep,
  All-imp, All-every, Bool-cases, arith,
}
use sound_dock.Retention.Policy.{Policy}
use sound_dock.Retention.Candidates.{
  Media, Busy, Disk, is_candidate, is_wanted, is_exempt, may_be_given_up, candidates, insert_media,
  sort_media, precedes, age_required, storage_pressure, free_pressure, skips,
}
use sound_dock.Retention.Prune.{
  Goal, Course, Outcome, Payload, prune_loop, prune_one, prune, run, runs, is_dry, gain, goal_of,
  fetch_limit, is_full, is_enough,
}

All-take : (P : Media → Type 0) (n : ℕ) (ms : List Media) → All P ms → All P (take n ms)
All-take P zero ms h = tt
All-take P (suc n) [] h = tt
All-take P (suc n) (m ∷ ms) (h, hs) = (h, All-take P n ms hs)

All-insert :
    (P : Media → Type 0) (m : Media) (ms : List Media) → P m → All P ms → All P (insert_media m ms)
All-insert P m [] h hs = (h, tt)
All-insert P m (n ∷ ns) h (g, gs) =
    if-either (All P) (precedes n m) (g, All-insert P m ns h gs) (h, (g, gs))

All-sort : (P : Media → Type 0) (ms : List Media) → All P ms → All P (sort_media ms)
All-sort P [] h = tt
All-sort P (m ∷ ms) (h, hs) = All-insert P m (sort_media ms) h (All-sort P ms hs)

-- What the clause promises of a candidate.
pub record IsSpare (busy : Busy) (m : Media) : Type 0 where
  pub given_up : may_be_given_up m ≡ true
  pub not_wanted : is_wanted m ≡ false
  pub not_exempt : is_exempt m ≡ false
  pub not_kept : m.is_kept_forever ≡ false
  pub not_busy : contains busy.tracks m.id ≡ false
  pub not_in_busy : contains busy.libraries m.library ≡ false
  pub not_queued : m.is_queued ≡ false
  pub not_current : m.is_current ≡ false

is_candidate-IsSpare :
    (now : ℕ) (p : Policy) (busy : Busy) (age : Bool) (m : Media)
    → is_candidate now p busy age m ≡ true
    → IsSpare busy m
unfolding is_candidate
is_candidate-IsSpare now p busy age m h = record {
  given_up = ground arith;
  not_wanted = ground arith;
  not_exempt = ground arith;
  not_kept = ground arith;
  not_busy = ground arith;
  not_in_busy = ground arith;
  not_queued = ground arith;
  not_current = ground arith;
}

candidates-IsSpare :
    (now : ℕ) (p : Policy) (busy : Busy) (disk : Disk) (limit : ℤ) (tracks : List Media)
    → All (IsSpare busy) (candidates now p busy disk limit tracks)
unfolding candidates
candidates-IsSpare now p busy disk limit tracks =
    let st = storage_pressure p disk.managed in
    let fs = free_pressure p disk.free in
    let age = age_required p.mode st fs p.age_days in
    if-either (All (IsSpare busy)) (skips p.mode st fs) tt (
      All-take (IsSpare busy) (floor_zero (if ltb_ℤ (pos 0) limit then limit else p.batch_size))
        (sort_media (keep (is_candidate now p busy age) tracks))
        (All-sort (IsSpare busy) (keep (is_candidate now p busy age) tracks)
          (kept (is_candidate now p busy age) (is_candidate-IsSpare now p busy age) tracks)))
  where
    kept :
        {busy : Busy} (q : Media → Bool)
        → ((m : Media) → q m ≡ true → IsSpare busy m)
        → (ms : List Media) → All (IsSpare busy) (keep q ms)
    kept {busy} q f ms =
        All-imp (λ m. Unit × (q m ≡ true)) (IsSpare busy) (keep q ms) (λ m h. f m h.1)
          (All-keep (λ m. Unit) q ms (All-every (λ m. Unit) ms (λ m. tt)))

prune_one-All :
    (P : Media → Type 0) (dry : Bool) (c : Course) (m : Media) (reclaimed : ℤ) (got : Option ℕ)
    (rest : ℤ → Outcome)
    → P m
    → ((r : ℤ) → All P (rest r).pruned)
    → All P (prune_one dry c m reclaimed got rest).pruned
prune_one-All P dry c m reclaimed none rest h hs = tt
prune_one-All P dry c m reclaimed (some n) rest h hs =
    if-either (λ (o : Outcome). All P o.pruned) (c.noted m) (h, hs (add_int64 reclaimed (pos n)))
      (if-either (λ (o : Outcome). All P o.pruned) dry tt (h, tt))

prune_loop-All :
    (P : Media → Type 0) (now : ℕ) (p : Policy) (g : Goal) (dry : Bool) (c : Course) (n : ℕ)
    (reclaimed : ℤ) (ms : List Media)
    → All P ms
    → All P (prune_loop now p g dry c n reclaimed ms).pruned
unfolding prune_loop
prune_loop-All P now p g dry c n reclaimed [] h = tt
prune_loop-All P now p g dry c n reclaimed (m ∷ ms) (h, hs) =
    if-either (λ (o : Outcome). All P o.pruned) (c.stopped m) tt
      (if-either (λ (o : Outcome). All P o.pruned) (is_full p n) tt
        (if-either (λ (o : Outcome). All P o.pruned) (is_enough now p g reclaimed m) tt
          (prune_one-All P dry c m reclaimed (gain dry c m)
            (λ r. prune_loop now p g dry c (suc n) r ms) h
            (λ r. prune_loop-All P now p g dry c (suc n) r ms hs))))

-- Whatever the policy, the request and the disk, and however a run goes, each track that it purges is
-- one of a library that allows it, and none that is kept forever, a favourite or by or on one, in
-- somebody's own playlist, exempted, in a queue, or playing; nor is it, or its library, among those that
-- the run was told are in use (which is nothing when the jobs could not be read).
pub run_spares :
    (now : ℕ) (p : Policy) (payload : Payload) (due : Bool) (busy : Busy) (disk later : Disk)
    (c : Course) (tracks : List Media) (o : Outcome)
    → run now p payload due busy disk later c tracks ≡ some o
    → All (IsSpare busy) o.pruned
unfolding run prune
run_spares now p payload due busy disk later c tracks o e =
    let spared =
      prune_loop-All (IsSpare busy) now p (goal_of p later) (is_dry p payload) c 0 (pos 0)
        (candidates now p busy disk (fetch_limit p) tracks)
        (candidates-IsSpare now p busy disk (fetch_limit p) tracks) in
    elim (Bool-cases (runs p payload due)) [
      | inl does ↦
          subst (λ (x : Outcome). All (IsSpare busy) x.pruned)
            {x = prune now p busy disk later (is_dry p payload) c tracks} {y = o} (ground arith)
            spared
      | inr ends_at_once ↦ absurd (ground arith)
    ]
