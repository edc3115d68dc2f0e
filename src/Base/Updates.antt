-- ===== src/Base/Updates.antt =====
-- An UPDATE of a table, and what it keeps: a property of each row, and one of each pair of rows.
use mathlib.Core.Path.{◌≡◌, refl}
use mathlib.Core.Logic.{inl, inr}
use mathlib.Core.Bool.{Bool, true, false}
use mathlib.Core.List.{List, [], ◌∷◌, ◌++◌, map}
use sound_dock.Base.Tests.{if◌then◌else◌, Bool-cases}
use sound_dock.Base.Lists.{All, keep}

module _ {A : Type 0} where
  -- UPDATE … SET f WHERE p.
  unfoldable pub update : (A → Bool) → (A → A) → List A → List A
  update p f rows = map (λ r. if p r then f r else r) rows

  -- A property of the rows that the statement changes, where it was one of them.
  pub update-All :
      (P : A → Type 0) (p : A → Bool) (f : A → A) (rows : List A)
      → ((r : A) → p r ≡ true → P r → P (f r))
      → All P rows
      → All P (update p f rows)
  unfolding update
  update-All P p f [] kept h = tt
  update-All P p f (r ∷ rows) kept (h, hs) = (
    elim (Bool-cases (p r)) [
      | inl holds_it ↦ rw holds_it (kept r holds_it h)
      | inr fails ↦ rw fails h
    ],
    update-All P p f rows kept hs,
  )

  pub All-imp : (P Q : A → Type 0) (rows : List A) → ((r : A) → P r → Q r) → All P rows → All Q rows
  All-imp P Q [] f h = tt
  All-imp P Q (r ∷ rows) f (h, hs) = (f r h, All-imp P Q rows f hs)

  pub All-both :
      (P Q R : A → Type 0) (rows : List A)
      → ((r : A) → P r → Q r → R r)
      → All P rows
      → All Q rows
      → All R rows
  All-both P Q R [] f h g = tt
  All-both P Q R (r ∷ rows) f (h, hs) (g, gs) = (f r h g, All-both P Q R rows f hs gs)

  pub All-every : (P : A → Type 0) (rows : List A) → ((r : A) → P r) → All P rows
  All-every P [] h = tt
  All-every P (r ∷ rows) h = (h r, All-every P rows h)

  pub All-append :
      (P : A → Type 0) (rows more : List A) → All P rows → All P more → All P (rows ++ more)
  All-append P [] more h m = m
  All-append P (r ∷ rows) more (h, hs) m = (h, All-append P rows more hs m)

  pub All-keep :
      (P : A → Type 0) (p : A → Bool) (rows : List A)
      → All P rows
      → All (λ r. P r × (p r ≡ true)) (keep p rows)
  All-keep P p [] h = tt
  All-keep P p (r ∷ rows) (h, hs) = elim (Bool-cases (p r)) [
    | inl holds_it ↦ rw holds_it ((h, holds_it), All-keep P p rows hs)
    | inr fails ↦ rw fails (All-keep P p rows hs)
  ]

  -- No earlier row is in the relation with a later one.
  abbrev pub Apart : (A → A → Bool) → List A → Type 0
  Apart rel [] = Unit
  Apart rel (r ∷ rows) = All (λ q. rel r q ≡ false) rows × Apart rel rows

  abbrev pub changed : (A → Bool) → (A → A) → A → A
  changed p f r = if p r then f r else r

  All-changed :
      (rel : A → A → Bool) (p : A → Bool) (f : A → A) (r : A) (rows : List A)
      → ((a b : A) → rel a b ≡ false → rel (changed p f a) (changed p f b) ≡ false)
      → All (λ q. rel r q ≡ false) rows
      → All (λ q. rel (changed p f r) q ≡ false) (update p f rows)
  unfolding update
  All-changed rel p f r [] kept h = tt
  All-changed rel p f r (q ∷ rows) kept (h, hs) = (kept r q h, All-changed rel p f r rows kept hs)

  pub update-Apart :
      (rel : A → A → Bool) (p : A → Bool) (f : A → A) (rows : List A)
      → ((a b : A) → rel a b ≡ false → rel (changed p f a) (changed p f b) ≡ false)
      → Apart rel rows
      → Apart rel (update p f rows)
  unfolding update
  update-Apart rel p f [] kept h = tt
  update-Apart rel p f (r ∷ rows) kept (h, hs) =
      (All-changed rel p f r rows kept h, update-Apart rel p f rows kept hs)

  pub append-Apart :
      (rel : A → A → Bool) (rows : List A) (last : A)
      → Apart rel rows
      → All (λ q. rel q last ≡ false) rows
      → Apart rel (rows ++ (last ∷ []))
  append-Apart rel [] last h a = (tt, tt)
  append-Apart rel (r ∷ rows) last (h, hs) (a, rest) = (
    All-append (λ q. rel r q ≡ false) rows (last ∷ []) h (a, tt),
    append-Apart rel rows last hs rest,
  )

  -- Two conditions that agree on every row make the same statement.
  pub update-agree :
      (p q : A → Bool) (f : A → A) (rows : List A)
      → All (λ r. p r ≡ q r) rows
      → update p f rows ≡ update q f rows
  unfolding update
  update-agree p q f [] h = refl
  update-agree p q f (r ∷ rows) (h, hs) = rw (h, update-agree p q f rows hs) refl

  -- A second statement on the same rows.
  pub update-update :
      (p : A → Bool) (f g : A → A) (rows : List A)
      → ((r : A) → p (f r) ≡ p r)
      → update p g (update p f rows) ≡ update p (λ r. g (f r)) rows
  unfolding update
  update-update p f g [] same = refl
  update-update p f g (r ∷ rows) same = elim (Bool-cases (p r)) [
    | inl holds_it ↦ rw (holds_it, same r, holds_it, update-update p f g rows same) refl
    | inr fails ↦ rw (fails, fails, update-update p f g rows same) refl
  ]

  -- Two statements after one another, and a relation that they make of another.
  All-updates :
      (rel after : A → A → Bool) (p q : A → Bool) (f g : A → A) (r : A) (rows : List A)
      → ((a b : A)
          → rel a b ≡ false
          → after (changed q g (changed p f a)) (changed q g (changed p f b)) ≡ false)
      → All (λ s. rel r s ≡ false) rows
      → All (λ s. after (changed q g (changed p f r)) s ≡ false) (update q g (update p f rows))
  unfolding update
  All-updates rel after p q f g r [] made h = tt
  All-updates rel after p q f g r (s ∷ rows) made (h, hs) =
      (made r s h, All-updates rel after p q f g r rows made hs)

  pub updates-Apart :
      (rel after : A → A → Bool) (p q : A → Bool) (f g : A → A) (rows : List A)
      → ((a b : A)
          → rel a b ≡ false
          → after (changed q g (changed p f a)) (changed q g (changed p f b)) ≡ false)
      → Apart rel rows
      → Apart after (update q g (update p f rows))
  unfolding update
  updates-Apart rel after p q f g [] made h = tt
  updates-Apart rel after p q f g (r ∷ rows) made (h, hs) =
      (All-updates rel after p q f g r rows made h, updates-Apart rel after p q f g rows made hs)

  -- A weaker relation.
  pub Apart-imp :
      (rel other : A → A → Bool) (rows : List A)
      → ((a b : A) → rel a b ≡ false → other a b ≡ false)
      → Apart rel rows
      → Apart other rows
  Apart-imp rel other [] weaker h = tt
  Apart-imp rel other (r ∷ rows) weaker (h, hs) = (
    All-imp (λ s. rel r s ≡ false) (λ s. other r s ≡ false) rows (weaker r) h,
    Apart-imp rel other rows weaker hs,
  )
