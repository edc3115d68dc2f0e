-- ===== src/Jobs/Orderly.antt =====
-- The invariant of the table jobs, statement by statement.
use sound_dock.Base.{
  ℕ, ◌+◌, ◌<◌, ◌≡◌, refl, inl, inr, sym, subst, Bool, true, false, not, ◌&&◌, List, [], ◌∷◌, ◌++◌,
  String, str_eq, any, All, Bool-cases, ◌==◌, arith,
}
use sound_dock.Jobs.Pools.{PoolConfig}
use sound_dock.Jobs.Rows.{Row, Table, Payload, is_active, clash, respects_index, key_of}
use sound_dock.Base.{update}
use sound_dock.Jobs.Queue.{requeued, retries, new_row, insert, insert_row, retry_job}
use sound_dock.Base.{update-All, All-imp, All-append, Apart, changed, update-Apart, append-Apart}
use sound_dock.Jobs.Sound.{IsSound, new_row-IsSound, requeued-IsSound}

abbrev pub same_id : Row → Row → Bool
same_id a b = a.id == b.id

-- The rows are sound, no two have an identifier, or an active one a key, in common, and the next
-- identifier is new.
pub record Orderly (t : Table) : Type 0 where
  pub sound : All IsSound t.rows
  pub ids_apart : Apart same_id t.rows
  pub fresh : All (λ r. r.id < t.next_id) t.rows
  pub keys_apart : Apart clash t.rows

-- A statement that keeps each row's identifier and key, and activates none.
abbrev pub IsCalm : (Row → Bool) → (Row → Row) → Type 0
IsCalm p f =
    (r : Row)
    → p r ≡ true
    → ((f r).id ≡ r.id)
      × (key_of (f r) ≡ key_of r)
      × (is_active (f r).status ≡ true → is_active r.status ≡ true)

clashing_calm :
    (a b c d e : Bool) (x y : Bool)
    → (x ≡ true → a ≡ true)
    → (y ≡ true → b ≡ true)
    → (a && b && d && e) ≡ false
    → (x && y && d && e) ≡ false
clashing_calm a b c d e x y f g h = ground arith

changed-calm :
    (p : Row → Bool) (f : Row → Row) (r : Row) (test : Bool)
    → p r ≡ test
    → IsCalm p f
    → ((changed p f r).id ≡ r.id)
      × (key_of (changed p f r) ≡ key_of r)
      × (is_active (changed p f r).status ≡ true → is_active r.status ≡ true)
changed-calm p f r true e calm = rw e (calm r e)
changed-calm p f r false e calm = rw e (refl, refl, λ h. h)

clash-changed :
    (p : Row → Bool) (f : Row → Row) (a b : Row)
    → IsCalm p f
    → clash a b ≡ false
    → clash (changed p f a) (changed p f b) ≡ false
clash-changed p f a b calm h =
    let (i, ka, fa) = changed-calm p f a (p a) refl calm in
    let (j, kb, fb) = changed-calm p f b (p b) refl calm in
    rw (ka, kb)
      (clashing_calm (is_active a.status) (is_active b.status) true (not (str_eq (key_of a) ""))
        (str_eq (key_of a) (key_of b)) (is_active (changed p f a).status)
        (is_active (changed p f b).status) fa fb h)

same_id-changed :
    (p : Row → Bool) (f : Row → Row) (a b : Row)
    → IsCalm p f
    → same_id a b ≡ false
    → same_id (changed p f a) (changed p f b) ≡ false
same_id-changed p f a b calm h =
    rw ((changed-calm p f a (p a) refl calm).0, (changed-calm p f b (p b) refl calm).0) h

pub update-Orderly :
    (p : Row → Bool) (f : Row → Row) (t : Table)
    → IsCalm p f
    → ((r : Row) → p r ≡ true → IsSound r → IsSound (f r))
    → Orderly t
    → Orderly (record t { rows = update p f t.rows })
update-Orderly p f t calm kept o = record {
  sound = update-All IsSound p f t.rows kept o.sound;
  ids_apart = update-Apart same_id p f t.rows (λ a b. same_id-changed p f a b calm) o.ids_apart;
  fresh =
      update-All (λ r. r.id < t.next_id) p f t.rows
        (λ r h lt. subst (λ n. n < t.next_id) (sym (calm r h).0) lt) o.fresh;
  keys_apart = update-Apart clash p f t.rows (λ a b. clash-changed p f a b calm) o.keys_apart;
}

-- The index's test, and the pairs that it forbids.
any-false :
    (p : Row → Bool) (rows : List Row) → not (any p rows) ≡ true → All (λ r. p r ≡ false) rows
any-false p [] h = tt
any-false p (r ∷ rows) h = (ground arith, any-false p rows (ground arith))

pub respects_index-Apart : (rows : List Row) → respects_index rows ≡ true → Apart clash rows
unfolding respects_index
respects_index-Apart [] h = tt
respects_index-Apart (r ∷ rows) h =
    (any-false (clash r) rows (ground arith), respects_index-Apart rows (ground arith))

newer-same_id :
    (rows : List Row) (last : Row)
    → All (λ r. r.id < last.id) rows
    → All (λ r. same_id r last ≡ false) rows
newer-same_id rows last h =
    All-imp (λ r. r.id < last.id) (λ r. same_id r last ≡ false) rows (λ r lt. ground arith) h

inserted-Orderly :
    (last : Row) (t : Table)
    → IsSound last
    → last.id ≡ t.next_id
    → respects_index (t.rows ++ (last ∷ [])) ≡ true
    → Orderly t
    → Orderly (record { rows = t.rows ++ (last ∷ []); next_id = t.next_id + 1 })
inserted-Orderly last t sound named h o = record {
  sound = All-append IsSound t.rows (last ∷ []) o.sound (sound, tt);
  ids_apart =
      append-Apart same_id t.rows last o.ids_apart
        (newer-same_id t.rows last (subst (λ n. All (λ r. r.id < n) t.rows) (sym named) o.fresh));
  fresh =
      All-append (λ r. r.id < t.next_id + 1) t.rows (last ∷ [])
        (All-imp (λ r. r.id < t.next_id) (λ r. r.id < t.next_id + 1) t.rows (λ r lt. omega arith)
          o.fresh)
        (omega (arith, named), tt);
  keys_apart = respects_index-Apart (t.rows ++ (last ∷ [])) h;
}

pub insert_row-Orderly :
    (last : Row) (t : Table)
    → IsSound last
    → last.id ≡ t.next_id
    → Orderly t
    → Orderly (insert_row last t).0
insert_row-Orderly last t sound named o =
    elim (Bool-cases (respects_index (t.rows ++ (last ∷ [])))) [
      | inl accepted ↦ rw accepted (inserted-Orderly last t sound named accepted o)
      | inr refused ↦ rw refused o
    ]

pub insert-Orderly :
    (now : ℕ) (kind : String) (payload : Payload) (cfg : PoolConfig) (t : Table)
    → Orderly t
    → Orderly (insert now kind payload cfg t).0
unfolding insert
insert-Orderly now kind payload cfg t o =
    insert_row-Orderly (new_row now kind payload cfg t.next_id) t
      (new_row-IsSound now kind payload cfg t.next_id) refl o

-- `Retry` activates rows, and the index stands in for the third part of a calm statement.
requeued-Orderly :
    (now id : ℕ) (t : Table)
    → respects_index (update (retries id) (requeued now) t.rows) ≡ true
    → Orderly t
    → Orderly (record t { rows = update (retries id) (requeued now) t.rows })
unfolding update
requeued-Orderly now id t h o = record {
  sound =
      update-All IsSound (retries id) (requeued now) t.rows (λ r e. requeued-IsSound now r) o.sound;
  ids_apart =
      update-Apart same_id (retries id) (requeued now) t.rows (λ a b apart. ground arith)
        o.ids_apart;
  fresh =
      update-All (λ r. r.id < t.next_id) (retries id) (requeued now) t.rows (λ r e lt. lt) o.fresh;
  keys_apart = respects_index-Apart (update (retries id) (requeued now) t.rows) h;
}

pub retry_job-Orderly : (now id : ℕ) (t : Table) → Orderly t → Orderly (retry_job now id t).0
unfolding retry_job
retry_job-Orderly now id t o =
    elim (Bool-cases (respects_index (update (retries id) (requeued now) t.rows))) [
      | inl accepted ↦ elim (Bool-cases (any (retries id) t.rows)) [
        | inl found ↦ rw (accepted, found) (requeued-Orderly now id t accepted o)
        | inr missing ↦ rw (accepted, missing) (requeued-Orderly now id t accepted o)
      ]
      | inr refused ↦ rw refused o
    ]
