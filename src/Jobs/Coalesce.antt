-- ===== src/Jobs/Coalesce.antt =====
-- What `enqueue` and `EnqueueCoalesced` of internal/jobs/jobs.go add to the table.
pub mod Twice
use text.Mathlib.TextPositions.{eq_refl}
use sound_dock.Base.{
  ℕ, ◌+◌, ◌≡◌, refl, sym, subst, ap, ◌∙◌, inl, inr, ◌⊎◌, pos, ltb_ℤ, Bool, true, false, Option,
  none, some, List, [], ◌∷◌, ◌++◌, String, str_eq, if◌then◌else◌, if-true, Bool-cases, Option-cases,
  arith, ok, err, Result, trim_space,
}
use sound_dock.Jobs.Pools.{Pool, PoolConfig, pool_for_type}
use sound_dock.Jobs.Rows.{Row, Table, Payload, queue_depth, respects_index, is_queued_in, same_pool}
use sound_dock.Jobs.Kept.{after_insert-same}
use sound_dock.Jobs.Queue.{
  JobError, Input, enqueue, enqueue_coalesced, insert, new_row, find_coalesced,
  payload_with_coalesce_key, with_payload, count_and_insert, or_coalesced, coalesces, oldest,
  payload_of, with_key,
}

-- The answers of the INSERT and of what surrounds it.
pub insert-cases :
    (now : ℕ) (kind : String) (payload : Payload) (cfg : PoolConfig) (t : Table)
    → (insert now kind payload cfg t ≡ (t, err JobError.duplicate_key))
      ⊎ (insert now kind payload cfg t ≡ (
        record {
          rows = t.rows ++ (new_row now kind payload cfg t.next_id ∷ []);
          next_id = t.next_id + 1;
        },
        ok t.next_id,
      ))
unfolding insert
insert-cases now kind payload cfg t =
    elim (Bool-cases (respects_index (t.rows ++ (new_row now kind payload cfg t.next_id ∷ [])))) [
      | inl accepted ↦ inr (rw accepted refl)
      | inr refused ↦ inl (rw refused refl)
    ]

queue_depth-append :
    (pool : Pool) (rows : List Row) (last : Row)
    → is_queued_in pool last ≡ true
    → queue_depth pool (rows ++ (last ∷ [])) ≡ queue_depth pool rows + 1
unfolding queue_depth
queue_depth-append pool [] last h = ground arith
queue_depth-append pool (r ∷ rows) last h = ground (arith, queue_depth-append pool rows last h)

same_pool_refl : (pool : Pool) → same_pool pool pool ≡ true
same_pool_refl pool = ground arith

-- One more row, with the answer; its pool is not over the limit with it.
abbrev pub Inserts : ℕ → String → Payload → PoolConfig → Table → Table × Result JobError ℕ → Type 0
Inserts now kind payload cfg t (u, answer) =
    (answer ≡ ok t.next_id)
    × (u ≡ record {
      rows = t.rows ++ (new_row now kind payload cfg t.next_id ∷ []);
      next_id = t.next_id + 1;
    })
    × (ltb_ℤ cfg.queue_limit (pos (queue_depth (pool_for_type kind) u.rows)) ≡ false)

room :
    (now : ℕ) (kind : String) (payload : Payload) (cfg : PoolConfig) (t : Table)
    → ltb_ℤ (pos (queue_depth (pool_for_type kind) t.rows)) cfg.queue_limit ≡ true
    → ltb_ℤ cfg.queue_limit (
        pos (
          queue_depth
            (pool_for_type kind)
            (t.rows ++ (new_row now kind payload cfg t.next_id ∷ []))))
      ≡ false
room now kind payload cfg t h = ground (
  arith,
  queue_depth-append (pool_for_type kind) t.rows (new_row now kind payload cfg t.next_id)
      (ground (arith, same_pool_refl (pool_for_type kind))),
)

-- Without a coalesced job at hand, the count and the INSERT add a row or change nothing.
count_and_insert-cases :
    (now : ℕ) (kind key : String) (payload : Payload) (cfg : PoolConfig) (t : Table)
    → ((count_and_insert now kind key payload cfg t).0 ≡ t)
      ⊎ Inserts now kind payload cfg t (count_and_insert now kind key payload cfg t)
count_and_insert-cases now kind key payload cfg t =
    elim (Bool-cases (ltb_ℤ (pos (queue_depth (pool_for_type kind) t.rows)) cfg.queue_limit)) [
      | inr full ↦ inl (rw full refl)
      | inl has_room ↦ elim (insert-cases now kind payload cfg t) [
        | inl refused ↦ inl (
            rw (has_room, refused, after_insert-same kind key (t, err JobError.duplicate_key)) refl)
        | inr inserted ↦ inr (
            subst (Inserts now kind payload cfg t) (sym (rw (has_room, inserted) refl))
              (refl, refl, room now kind payload cfg t has_room))
      ]
    ]

with_payload-cases :
    (now : ℕ) (kind key : String) (payload : Option Payload) (cfg : PoolConfig) (t : Table)
    → ((with_payload now kind key payload cfg t).0 ≡ t)
      ⊎ ((p : Payload) × Inserts now kind p cfg t (with_payload now kind key payload cfg t))
with_payload-cases now kind key none cfg t = inl refl
with_payload-cases now kind key (some p) cfg t =
    elim (if str_eq key "" then none else find_coalesced kind key t.rows)
      as (λ r.
        ((or_coalesced r t (count_and_insert now kind key p cfg t)).0 ≡ t)
        ⊎ ((q : Payload) × Inserts now kind q cfg t
              (or_coalesced r t (count_and_insert now kind key p cfg t)))) [
                | some r ↦ inl refl
                | none ↦ elim (count_and_insert-cases now kind key p cfg t) [
                  | inl same ↦ inl same
                  | inr added ↦ inr (p, added)
                ]
              ]

-- An enqueue leaves the table as it was, or its pool is enabled and it adds one queued job, whose
-- identifier it answers, with which the pool has no more waiting jobs than its limit.
pub enqueue-cases :
    (now : ℕ) (configs : Pool → PoolConfig) (kind key : String) (input : Input) (t : Table)
    → ((enqueue now configs kind key input t).0 ≡ t)
      ⊎ (((configs (pool_for_type kind)).enabled ≡ true)
          × (p : Payload) × Inserts now kind p
              (configs (pool_for_type kind))
              t
              (enqueue now configs kind key input t))
unfolding enqueue
enqueue-cases now configs kind key input t =
    elim (Bool-cases ((configs (pool_for_type kind)).enabled)) [
      | inr off ↦ inl (ground arith)
      | inl on ↦
          let taken = sym (
            if-true ((configs (pool_for_type kind)).enabled)
              (with_payload now kind key (payload_with_coalesce_key input key)
                (configs (pool_for_type kind)) t)
              (t, err (JobError.pool_disabled (pool_for_type kind))) on) in
          elim (with_payload-cases now kind key (payload_with_coalesce_key input key)
            (configs (pool_for_type kind)) t) [
              | inl same ↦ inl (subst (λ (x : Table × Result JobError ℕ). x.0 ≡ t) taken same)
              | inr (p, added) ↦
                  inr
                    (on, p, subst (Inserts now kind p (configs (pool_for_type kind)) t) taken added)
            ]
    ]
