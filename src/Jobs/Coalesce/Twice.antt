-- ===== src/Jobs/Coalesce/Twice.antt =====
-- `EnqueueCoalesced` of internal/jobs/jobs.go, called again.
use text.Mathlib.TextPositions.{eq_refl}
use sound_dock.Base.{
  ℕ, ◌+◌, ◌≡◌, refl, sym, subst, ap, ◌∙◌, inl, inr, pos, ltb_ℤ, Bool, true, false, none, some, List,
  [], ◌∷◌, ◌++◌, String, str_eq, if-true, Bool-cases, Option-cases, arith, ok, err, Result,
  trim_space,
}
use sound_dock.Jobs.Pools.{Pool, PoolConfig, pool_for_type}
use sound_dock.Jobs.Rows.{Row, Table, Payload, queue_depth}
use sound_dock.Jobs.Queue.{
  JobError, Input, enqueue, enqueue_coalesced, insert, new_row, find_coalesced,
  payload_with_coalesce_key, with_payload, count_and_insert, or_coalesced, coalesces, oldest,
  payload_of, with_key,
}
use sound_dock.Jobs.Coalesce.{insert-cases}

oldest-append :
    (p : Row → Bool) (rows : List Row) (last : Row)
    → oldest p rows ≡ none
    → p last ≡ true
    → oldest p (rows ++ (last ∷ [])) ≡ some last
oldest-append p [] last e h = ground arith
oldest-append p (r ∷ rows) last e h = ground (arith, oldest-append p rows last)

coalesces-new :
    (now : ℕ) (kind key : String) (p : Payload) (cfg : PoolConfig) (id : ℕ)
    → str_eq key "" ≡ false
    → coalesces kind key (new_row now kind (with_key key p) cfg id) ≡ true
coalesces-new now kind key p cfg id keyed = ground (arith, eq_refl kind, eq_refl key)

-- The answered job is the one that the key finds.
abbrev Finds : String → String → Table × Result JobError ℕ → Type 0
Finds kind key (u, answer) =
    (r : Row) × (find_coalesced kind key u.rows ≡ some r) × (answer ≡ ok r.id)

inserted_answer :
    (now : ℕ) (kind key : String) (p : Payload) (cfg : PoolConfig) (t : Table)
    → ltb_ℤ (pos (queue_depth (pool_for_type kind) t.rows)) cfg.queue_limit ≡ true
    → insert now kind p cfg t ≡ (
      record { rows = t.rows ++ (new_row now kind p cfg t.next_id ∷ []); next_id = t.next_id + 1 },
      ok t.next_id,
    )
    → (
      record { rows = t.rows ++ (new_row now kind p cfg t.next_id ∷ []); next_id = t.next_id + 1 },
      ok t.next_id,
    )
      ≡ count_and_insert now kind key p cfg t
inserted_answer now kind key p cfg t has_room inserted = rw (has_room, inserted) refl

-- An INSERT with a key that is answered leaves a job that the key finds.
insert-Finds :
    (now : ℕ) (kind key : String) (p : Payload) (cfg : PoolConfig) (t u : Table) (id : ℕ)
    → str_eq key "" ≡ false
    → find_coalesced kind key t.rows ≡ none
    → count_and_insert now kind key (with_key key p) cfg t ≡ (u, ok id)
    → Finds kind key (u, ok id)
unfolding find_coalesced
insert-Finds now kind key p cfg t u id keyed none_yet done =
    elim (Bool-cases (ltb_ℤ (pos (queue_depth (pool_for_type kind) t.rows)) cfg.queue_limit)) [
      | inr full ↦ absurd (ground arith)
      | inl has_room ↦ elim (insert-cases now kind (with_key key p) cfg t) [
        | inl refused ↦ absurd (ground arith)
        | inr inserted ↦
            let last = new_row now kind (with_key key p) cfg t.next_id in
            subst (Finds kind key)
              {x = (record { rows = t.rows ++ (last ∷ []); next_id = t.next_id + 1 }, ok t.next_id)}
              {y = (u, ok id)}
              (inserted_answer now kind key (with_key key p) cfg t has_room inserted ∙ done)
              (
                last,
                oldest-append (coalesces kind key) t.rows last none_yet
                    (coalesces-new now kind key p cfg t.next_id keyed),
                refl,
              )
      ]
    ]

-- What an enabled enqueue with a key and a payload does.
enqueue-eq :
    (now : ℕ) (configs : Pool → PoolConfig) (kind key : String) (input : Input) (p : Payload)
    (t : Table)
    → str_eq key "" ≡ false
    → (configs (pool_for_type kind)).enabled ≡ true
    → payload_of input ≡ some p
    → enqueue now configs kind key input t
      ≡ or_coalesced
          (find_coalesced kind key t.rows)
          t
          (count_and_insert now kind key (with_key key p) (configs (pool_for_type kind)) t)
unfolding enqueue
enqueue-eq now configs kind key input p t keyed on writable =
    if-true ((configs (pool_for_type kind)).enabled)
      (with_payload now kind key (payload_with_coalesce_key input key)
        (configs (pool_for_type kind)) t)
      (t, err (JobError.pool_disabled (pool_for_type kind))) on
    ∙ rw (writable, keyed) refl

enqueue-Finds :
    (now : ℕ) (configs : Pool → PoolConfig) (kind key : String) (input : Input) (t u : Table)
    (id : ℕ)
    → str_eq key "" ≡ false
    → enqueue now configs kind key input t ≡ (u, ok id)
    → Finds kind key (u, ok id)
unfolding enqueue
enqueue-Finds now configs kind key input t u id keyed done =
    elim (Bool-cases ((configs (pool_for_type kind)).enabled)) [
      | inr off ↦ absurd (ground arith)
      | inl on ↦ elim (Option-cases (payload_of input)) [
        | inl bad ↦ absurd (ground arith)
        | inr (p, good) ↦
            let otherwise =
              count_and_insert now kind key (with_key key p) (configs (pool_for_type kind)) t in
            let same = sym (enqueue-eq now configs kind key input p t keyed on good) ∙ done in
            elim (Option-cases (find_coalesced kind key t.rows)) [
              | inr (r, found) ↦
                  subst (Finds kind key) {x = (t, ok r.id)} {y = (u, ok id)}
                    (subst (λ f. or_coalesced f t otherwise ≡ (u, ok id)) found same)
                    (r, found, refl)
              | inl none_yet ↦
                  insert-Finds now kind key p (configs (pool_for_type kind)) t u id keyed none_yet
                    (subst (λ f. or_coalesced f t otherwise ≡ (u, ok id)) none_yet same)
            ]
      ]
    ]

-- `EnqueueCoalesced`, called again with a type and key that it has answered a job for, and with a
-- payload that can be written, answers the same job and changes nothing, as long as the table is as
-- the first call left it and the pool is enabled. The key is not blank.
pub enqueue_coalesced_twice :
    (now later : ℕ) (configs other : Pool → PoolConfig) (kind key : String) (input again : Input)
    (p : Payload) (t u : Table) (id : ℕ)
    → str_eq (trim_space key) "" ≡ false
    → enqueue_coalesced now configs kind key input t ≡ (u, ok id)
    → (other (pool_for_type kind)).enabled ≡ true
    → payload_of again ≡ some p
    → enqueue_coalesced later other kind key again u ≡ (u, ok id)
unfolding enqueue_coalesced
enqueue_coalesced_twice now later configs other kind key input again p t u id keyed done on
      writable =
    let (r, found, answer) =
      enqueue-Finds now configs kind (trim_space key) input t u id keyed done in
    enqueue-eq later other kind (trim_space key) again p u keyed on writable
    ∙ rw found (ap (λ (a : Result JobError ℕ). (u, a)) (sym answer))
