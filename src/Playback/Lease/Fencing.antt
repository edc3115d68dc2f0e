-- ===== src/Playback/Lease/Fencing.antt =====
-- The compare-and-swap operations on a lease (internal/playback/lease.go) fence off a former holder.
use text.Mathlib.TextEquality.{eq_iff}
use text.Mathlib.TextPositions.{eq_refl}
use sound_dock.Base.{
  ℕ, ◌+◌, ◌<◌, ◌≡◌, refl, ◌⊎◌, inl, inr, ℤ, pos, pos_part, neg_part, Bool, true, false, Option,
  none, some, String, List, [], ◌∷◌, ok, err, arith, eq_ℤ, eq_ℤ-eq, eq_ℤ-refl, ◌+ℤ◌, ◌≢◌,
}
use sound_dock.Playback.Session.{Lease, RendererKind, Try, lease_conflict}
use sound_dock.Playback.Lease.{
  is_held_by, cas_acquire_browser, release_stale, heartbeat, cas_release, release_browser_if_held,
  release_discord_if_held, kind_eq, claim_discord, switch_to_browser,
}

-- The operations on a lease, with what their callers name.
pub data CasOp : Type 0 where
  acquire : String → ℤ → Bool → CasOp
  drop_stale : ℕ → CasOp
  beat : RendererKind → String → ℤ → CasOp
  release : RendererKind → String → ℤ → CasOp
  drop_browser : CasOp
  drop_discord : Bool → CasOp
  claim : String → ℤ → Bool → CasOp
  switch : String → ℤ → CasOp

-- A refused operation leaves the row as it was.
abbrev after : Lease → Try Lease → Lease
after l (ok m) = m
after l (err e) = l

abbrev after_pair : {A : Type 0} → Lease → Try (Lease × A) → Lease
after_pair l (ok (m, g)) = m
after_pair l (err e) = l

unfoldable pub apply : ℕ × CasOp → Lease → Lease
apply (now, acquire id expected steal) l =
    after_pair l (cas_acquire_browser now id expected steal l)
apply (now, drop_stale max_age) l = (release_stale now max_age l).0
apply (now, beat kind id generation) l = after l (heartbeat now kind id generation l)
apply (now, release kind id generation) l = (cas_release kind id generation l).0
apply (now, drop_browser) l = (release_browser_if_held l).0
apply (now, drop_discord reset) l = (release_discord_if_held reset l).0
apply (now, claim id generation steal) l = after_pair l (claim_discord now id generation steal l)
apply (now, switch id generation) l = after l (switch_to_browser now id generation l)

unfoldable pub run : List (ℕ × CasOp) → Lease → Lease
run [] l = l
run (op ∷ ops) l = run ops (apply op l)

infix 50 ◌<ℤ◌
abbrev ◌<ℤ◌ : ℤ → ℤ → Type 0
a <ℤ b = pos_part a + neg_part b < pos_part b + neg_part a

-- Where the caller names the new generation, it is above the row's (0 leaves the choice to the row).
abbrev pub Advances : CasOp → Lease → Type 0
Advances (claim id generation steal) l = l.generation <ℤ generation
Advances (switch id generation) l = (eq_ℤ generation (pos 0) ≡ true) ⊎ (l.generation <ℤ generation)
Advances _ l = Unit {0}

abbrev pub AllAdvance : List (ℕ × CasOp) → Lease → Type 0
AllAdvance [] l = Unit {0}
AllAdvance ((now, op) ∷ ops) l = Advances op l × AllAdvance ops (apply (now, op) l)

-- Either the lease still has that holder and generation, or its generation has moved on.
abbrev Past : RendererKind → Option String → ℤ → Lease → Type 0
Past kind id g l = ((l.kind ≡ kind) × (l.renderer ≡ id) × (l.generation ≡ g)) ⊎ (g <ℤ l.generation)

apply-Past :
    (kind : RendererKind) (id : Option String) (g : ℤ) (op : ℕ × CasOp) (l : Lease)
    → Advances op.1 l
    → Past kind id g l
    → Past kind id g (apply op l)
unfolding apply cas_acquire_browser release_stale heartbeat cas_release release_browser_if_held
    release_discord_if_held claim_discord switch_to_browser
apply-Past kind id g (now, acquire i e s) l a h = ground arith
apply-Past kind id g (now, drop_stale m) l a h = ground arith
apply-Past kind id g (now, beat k i n) l a h = ground arith
apply-Past kind id g (now, release k i n) l a h = ground arith
apply-Past kind id g (now, drop_browser) l a h = ground arith
apply-Past kind id g (now, drop_discord r) l a h = ground arith
apply-Past kind id g (now, claim i n e) l a h = ground arith
apply-Past kind id g (now, switch i n) l a h = ground arith

run-Past :
    (kind : RendererKind) (id : Option String) (g : ℤ) (ops : List (ℕ × CasOp)) (l : Lease)
    → AllAdvance ops l
    → Past kind id g l
    → Past kind id g (run ops l)
unfolding run
run-Past kind id g [] l a h = h
run-Past kind id g (op ∷ ops) l (a, more) h =
    run-Past kind id g ops (apply op l) more (apply-Past kind id g op l a h)

apply-newer :
    (g : ℤ) (op : ℕ × CasOp) (l : Lease)
    → Advances op.1 l
    → g <ℤ l.generation
    → g <ℤ (apply op l).generation
unfolding apply cas_acquire_browser release_stale heartbeat cas_release release_browser_if_held
    release_discord_if_held claim_discord switch_to_browser
apply-newer g (now, acquire i e s) l a h = ground arith
apply-newer g (now, drop_stale m) l a h = ground arith
apply-newer g (now, beat k i n) l a h = ground arith
apply-newer g (now, release k i n) l a h = ground arith
apply-newer g (now, drop_browser) l a h = ground arith
apply-newer g (now, drop_discord r) l a h = ground arith
apply-newer g (now, claim i n e) l a h = ground arith
apply-newer g (now, switch i n) l a h = ground arith

run-newer :
    (g : ℤ) (ops : List (ℕ × CasOp)) (l : Lease)
    → AllAdvance ops l
    → g <ℤ l.generation
    → g <ℤ (run ops l).generation
unfolding run
run-newer g [] l a h = h
run-newer g (op ∷ ops) l (a, more) h = run-newer g ops (apply op l) more (apply-newer g op l a h)

eq_ℤ-newer : (a b : ℤ) → b <ℤ a → eq_ℤ a b ≡ false
eq_ℤ-newer a b h = ground arith

is_held_by-newer :
    (l : Lease) (kind : RendererKind) (id : String) (g : ℤ)
    → g <ℤ l.generation
    → is_held_by l kind id g ≡ false
is_held_by-newer l kind id g h = ground (arith, eq_ℤ-newer l.generation g)

lost-newer :
    (ops : List (ℕ × CasOp)) (l : Lease) (kind : RendererKind) (id : String) (g : ℤ)
    → AllAdvance ops l
    → is_held_by l kind id g ≡ true
    → is_held_by (run ops l) kind id g ≡ false
    → g <ℤ (run ops l).generation
lost-newer ops l kind id g a held lost =
    elim (run-Past l.kind l.renderer l.generation ops l a (inl (refl, refl, refl))) [
      | inl (k, r, n) ↦ absurd (ground arith)
      | inr newer ↦ ground (arith, eq_ℤ-eq l.generation g)
    ]

-- Whoever held the lease (kind, id and generation) and lost it in any sequence of the operations that
-- write it can no longer heartbeat it or release it, whatever further ones follow: the heartbeat is a
-- lease conflict, and the release changes nothing. Discord's claims and the switches to a browser among
-- them must name generations above the row's (a switch may name none): one with a lower generation
-- would let a former holder in again.
pub fenced_after_loss :
    (before more : List (ℕ × CasOp)) (now : ℕ) (l : Lease) (kind : RendererKind) (id : String)
    (g : ℤ)
    → AllAdvance before l
    → AllAdvance more (run before l)
    → is_held_by l kind id g ≡ true
    → is_held_by (run before l) kind id g ≡ false
    → (heartbeat now kind id g (run more (run before l)) ≡ err lease_conflict)
      × (cas_release kind id g (run more (run before l)) ≡ (run more (run before l), false))
unfolding heartbeat cas_release
fenced_after_loss before more now l kind id g a b held lost =
    let gone =
      is_held_by-newer (run more (run before l)) kind id g
        (run-newer g more (run before l) b (lost-newer before l kind id g a held lost)) in
    (rw gone refl, rw gone refl)

kind_eq-eq : (a b : RendererKind) → kind_eq a b ≡ true → a ≡ b
kind_eq-eq a b h = ground arith

eq_ℤ-suc : (a : ℤ) → eq_ℤ (a +ℤ pos 1) a ≡ false
eq_ℤ-suc a = ground arith

-- A browser's acquisition without stealing, when it succeeds while some holder has the lease: that
-- holder was not Discord, it holds the lease no longer, and the browser holds it under the
-- generation that the call answers.
pub acquire_evicts :
    (now : ℕ) (id : String) (expected : ℤ) (l m : Lease) (generation : ℤ) (kind : RendererKind)
    (holder : String) (g : ℤ)
    → cas_acquire_browser now id expected false l ≡ ok (m, generation)
    → is_held_by l kind holder g ≡ true
    → (kind ≢ RendererKind.discord)
      × (is_held_by m RendererKind.browser id generation ≡ true)
      × (is_held_by m kind holder g ≡ false)
unfolding cas_acquire_browser
acquire_evicts now id expected l m generation kind holder g e held = (
  ground (arith, kind_eq-eq l.kind kind),
  ground (arith, eq_refl id, eq_ℤ-refl (l.generation +ℤ pos 1)),
  ground (arith, eq_ℤ-eq l.generation g, eq_ℤ-suc g),
)

claim-held :
    (now : ℕ) (id : String) (generation : ℤ) (l m : Lease) (kind : RendererKind) (holder : String)
    (g : ℤ) (was : Option String)
    → l.renderer ≡ was
    → claim_discord now id generation false l ≡ ok (m, true)
    → is_held_by l kind holder g ≡ true
    → is_held_by m kind holder g ≡ false
unfolding claim_discord
claim-held now id generation l m kind holder g none r e held = ground arith
claim-held now id generation l m kind holder g (some was) r e held = ground (
  arith,
  eq_iff was holder,
  eq_iff id holder,
  eq_iff was id,
  kind_eq-eq l.kind kind,
  eq_ℤ-eq l.generation g,
  eq_ℤ-eq generation g,
  eq_ℤ-refl g,
)

-- Discord's claim without stealing, when it changes the row while some holder has the lease: that
-- holder was not a browser, it holds the lease no longer, and Discord holds it as claimed.
pub claim_evicts :
    (now : ℕ) (id : String) (generation : ℤ) (l m : Lease) (kind : RendererKind) (holder : String)
    (g : ℤ)
    → claim_discord now id generation false l ≡ ok (m, true)
    → is_held_by l kind holder g ≡ true
    → (kind ≢ RendererKind.browser)
      × (is_held_by m RendererKind.discord id generation ≡ true)
      × (is_held_by m kind holder g ≡ false)
unfolding claim_discord
claim_evicts now id generation l m kind holder g e held = (
  ground (arith, kind_eq-eq l.kind kind),
  ground (arith, eq_refl id, eq_ℤ-refl generation),
  claim-held now id generation l m kind holder g l.renderer refl e held,
)
