-- ===== src/Retention/Preview.antt =====
-- A preview plans what a run does, and a run reaches its goal (internal/retention/engine.go).
use sound_dock.Base.{
  ℕ, suc, ◌+◌, ◌≡◌, refl, inl, inr, ◌⊎◌, ap, sym, ℤ, pos, add_int64, Bool, true, false, some, List,
  [], ◌∷◌, length, take, ◌++◌, ◌&&◌, ◌||◌, Bool-cases,
}
use sound_dock.Retention.Policy.{Policy, is_hybrid, is_age}
use sound_dock.Retention.Candidates.{Media, Busy, Disk, candidates, age_eligible}
use sound_dock.Retention.Prune.{
  Goal, Course, Outcome, Ending, prune_loop, prune, gain, goal_of, fetch_limit, is_full, is_enough,
  is_relieved, take_loop, take_batch, planned, preview, shown_limit, total_size,
}

-- Nothing disturbs the run: nobody cancels it, each event is written, and each track gives the bytes of
-- its files.
abbrev pub IsSmooth : Bool → Course → Type 0
IsSmooth dry c =
    (m : Media) → (c.stopped m ≡ false) × (c.noted m ≡ true) × (gain dry c m ≡ some m.size_bytes)

prune_loop-take_loop :
    (now : ℕ) (p : Policy) (g : Goal) (dry : Bool) (c : Course) (n : ℕ) (reclaimed : ℤ)
    (ms : List Media)
    → IsSmooth dry c
    → (prune_loop now p g dry c n reclaimed ms).pruned ≡ take_loop now p g n reclaimed ms
unfolding prune_loop take_loop
prune_loop-take_loop now p g dry c n reclaimed [] smooth = refl
prune_loop-take_loop now p g dry c n reclaimed (m ∷ ms) smooth =
    let (unstopped, noted, got) = smooth m in
    elim (Bool-cases (is_full p n)) [
      | inl full ↦ rw (unstopped, full) refl
      | inr room ↦ elim (Bool-cases (is_enough now p g reclaimed m)) [
        | inl enough ↦ rw (unstopped, room, enough) refl
        | inr wanting ↦
            rw (unstopped, room, wanting, got, noted)
              (ap (λ rest. m ∷ rest)
                (prune_loop-take_loop now p g dry c (suc n) (add_int64 reclaimed (pos m.size_bytes))
                  ms smooth))
      ]
    ]

planned-prune :
    (now : ℕ) (p : Policy) (busy : Busy) (disk later : Disk) (dry : Bool) (c : Course)
    (tracks : List Media)
    → IsSmooth dry c
    → planned now p busy disk later tracks ≡ (prune now p busy disk later dry c tracks).pruned
unfolding planned prune take_batch
planned-prune now p busy disk later dry c tracks smooth = sym (
    prune_loop-take_loop now p (goal_of p later) dry c 0 (pos 0)
      (candidates now p busy disk (fetch_limit p) tracks) smooth)

-- A preview shows the first tracks, 100 or as many as it is asked for, of those that a run on the same
-- tables and disk goes on to prune, in the same order, and counts the bytes of all of them, if nothing
-- disturbs the run and each track gives the bytes of its files.
pub preview-prune :
    (limit : ℤ) (now : ℕ) (p : Policy) (busy : Busy) (disk later : Disk) (dry : Bool) (c : Course)
    (tracks : List Media)
    → IsSmooth dry c
    → ((preview limit now p busy disk later tracks).preview
        ≡ take (shown_limit limit) (prune now p busy disk later dry c tracks).pruned)
      × ((preview limit now p busy disk later tracks).eligible_bytes
          ≡ total_size (prune now p busy disk later dry c tracks).pruned)
unfolding preview
preview-prune limit now p busy disk later dry c tracks smooth =
    let same = planned-prune now p busy disk later dry c tracks smooth in
    (ap (take (shown_limit limit)) same, ap total_size same)

abbrev is_finished : Ending → Bool
is_finished Ending.finished = true
is_finished _ = false

-- The mode is not `age`, and a hybrid run was made for a pressure.
abbrev pub IsUrgent : Policy → Goal → Type 0
IsUrgent p g =
    (is_age p.mode ≡ false) × (is_hybrid p.mode ≡ true → (g.need_storage || g.need_free) ≡ true)

-- The pressure that the run was made for is relieved, and of the next candidate there is no need: the
-- run is not one for idle tracks, nor a hybrid one that has come to an idle track.
abbrev pub Relieved : ℕ → Policy → Goal → List Media → Outcome → Type 0
Relieved now p g ms o =
    IsUrgent p g
    × (is_relieved g o.reclaimed ≡ true)
    × ((m : Media) × (rest : List Media) × (ms ≡ o.pruned ++ (m ∷ rest))
        × ((is_hybrid p.mode && age_eligible now p m) ≡ false))

-- Why a run that finishes stops: the batch is full, no candidate is left, or the pressure is relieved.
abbrev pub Stops : ℕ → Policy → Goal → ℕ → List Media → Outcome → Type 0
Stops now p g n ms o =
    (is_full p (n + length o.pruned) ≡ true) ⊎ ((o.pruned ≡ ms) ⊎ Relieved now p g ms o)

abbrev pub Finishes : Outcome → Type 0
Finishes o = is_finished o.ending ≡ true
