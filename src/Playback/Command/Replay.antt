-- ===== src/Playback/Command/Replay.antt =====
-- What a client may rely on when it sends a command twice, and what a command does to the revision
-- (`Engine.Control` of internal/playback/control.go).
use text.Mathlib.TextPositions.{eq_refl}
use sound_dock.Base.{
  ℕ, ◌≡◌, refl, sym, ap, ap₂, ◌∙◌, subst, ◌⊎◌, inl, inr, ◌≢◌, Bool, true, false, Option, none, some,
  String, List, ◌∷◌, ◌==◌, if◌then◌else◌, ok, err, arith, Bool-cases, ==_iff, ==-refl,
}
use sound_dock.Playback.Session.{UndoItem, Dock, Receipt, Try, Error, command_conflict}
use sound_dock.Playback.Extra.{Fields}
use sound_dock.Playback.Env.{Env}
use sound_dock.Playback.Control.{Action, Outcome, control_tx}
use sound_dock.Playback.Command.{
  Reply, normalize, without_id, command_id, load_receipt, replay, receipt_of, with_receipt, undo_of,
  bumped, execute, filled, control, finish, answer, refills, is_empty_id,
}

-- How a command ends: answered from its receipt, refused by it, failed, or done.
abbrev pub Ended :
    Bool → String → ℕ → Dock → Option Receipt → Try Outcome → Dock → Try Reply → Type 0
Ended no_id c hash d found m d' r =
    ((d' ≡ d)
      × (no_id ≡ false)
      × ((old : Receipt) × (found ≡ some old) × (old.hash ≡ hash) × (r ≡ replay old)))
    ⊎ (((d' ≡ d) × ((e : Error) × (r ≡ err e)))
        ⊎ ((o : Outcome) × (m ≡ ok o)
            × (d'
                ≡ with_receipt c hash
                    (undo_of (bumped o.mutated o.dock).session.revision o.undo_items)
                    (bumped o.mutated o.dock))
            × (r
                ≡ ok (record {
                  undo = undo_of (bumped o.mutated o.dock).session.revision o.undo_items;
                }))))

pub answer-Ended :
    (no_id : Bool) (c : String) (hash : ℕ) (d : Dock) (found : Option Receipt) (m : Try Outcome)
    → Ended no_id c hash d found m
        (answer no_id found hash d (finish c hash d m)).0
        (answer no_id found hash d (finish c hash d m)).1
answer-Ended true c hash d found (err e) = inr (inl (refl, (e, refl)))
answer-Ended true c hash d found (ok o) = inr (inr (o, refl, refl, refl))
answer-Ended false c hash d none (err e) = inr (inl (refl, (e, refl)))
answer-Ended false c hash d none (ok o) = inr (inr (o, refl, refl, refl))
answer-Ended false c hash d (some old) m = elim (Bool-cases (old.hash == hash)) [
  | inl e ↦ rw e (inl (refl, refl, (old, refl, (==_iff old.hash hash).0 e, refl)))
  | inr e ↦ rw e (inr (inl (refl, (command_conflict, refl))))
]

load_receipt-head : (r : Receipt) (rs : List Receipt) → load_receipt r.command (r ∷ rs) ≡ some r
unfolding load_receipt
load_receipt-head r rs = rw (eq_refl r.command) refl

-- What a later command of the same id meets.
abbrev Recorded : String → ℕ → Reply → Dock → Type 0
Recorded c hash r d =
    (old : Receipt) × (load_receipt c d.receipts ≡ some old)
    × (old.hash ≡ hash)
    × (replay old ≡ ok r)

Recorded-with_receipt :
    (c : String) (hash : ℕ) (undo : Option (ℕ × List UndoItem)) (d : Dock)
    → is_empty_id c ≡ false
    → Recorded c hash (record { undo = undo }) (with_receipt c hash undo d)
unfolding replay
Recorded-with_receipt c hash undo d e =
    rw e (
      receipt_of c hash d undo,
      load_receipt-head (receipt_of c hash d undo) d.receipts,
      refl,
      refl,
    )

Ended-Recorded :
    (no_id : Bool) (c : String) (hash : ℕ) (d : Dock) (m : Try Outcome) (d' : Dock) (r : Reply)
    → is_empty_id c ≡ false
    → Ended no_id c hash d (load_receipt c d.receipts) m d' (ok r)
    → Recorded c hash r d'
Ended-Recorded no_id c hash d m d' r e (inl (same, n, (old, found, h, answered))) =
    (old, subst (λ x. load_receipt c x.receipts ≡ some old) (sym same) found, h, sym answered)
Ended-Recorded no_id c hash d m d' r e (inr (inl (same, (x, failed)))) = cc
Ended-Recorded no_id c hash d m d' r e (inr (inr (o, ran, same, answered))) =
    let d₁ = bumped o.mutated o.dock in
    let undo = undo_of d₁.session.revision o.undo_items in
    let reply : record { undo = undo } ≡ r = cc in
    subst (λ x. Recorded c hash x d') reply
      (subst (Recorded c hash (record { undo = undo })) (sym same)
        (Recorded-with_receipt c hash undo d₁ e))

answer-receipt :
    (no_id : Bool) (found : Option Receipt) (hash : ℕ) (d : Dock) (run : Dock × Try Reply)
    {old : Receipt} {r : Reply} {h : ℕ}
    → no_id ≡ false
    → found ≡ some old
    → replay old ≡ ok r
    → old.hash ≡ h
    → answer no_id found hash d run ≡ (if h == hash then (d, ok r) else (d, err command_conflict))
answer-receipt true found hash d run e f q h = cc
answer-receipt false none hash d run e f q h = cc
answer-receipt false (some old) hash d run {old = o} {r} {h} e f q k =
    let same : old ≡ o = cc in
    ap₂ (λ x y. if x == hash then (d, y) else (d, err command_conflict)) (ap (λ x. x.hash) same ∙ k)
      (ap replay same ∙ q)

if-other : {A : Type 0} (a b : ℕ) (x y : A) → b ≢ a → (if a == b then x else y) ≡ y
if-other a b x y n = ground (arith, n)

module _ (digest : Action → Fields → ℕ) (fill : Dock → Dock) where
  if-receipts :
      (b : Bool) (d : Dock)
      → ((d : Dock) → (fill d).receipts ≡ d.receipts)
      → (if b then fill d else d).receipts ≡ d.receipts
  if-receipts true d keeps = keeps d
  if-receipts false d keeps = refl

  -- A command whose id has a receipt does nothing but the refill.
  answered :
      (env : Env) (action : Action) (raw : Fields) (d : Dock) (c : String) (hash : ℕ) (r : Reply)
      → command_id (normalize action raw) ≡ c
      → is_empty_id c ≡ false
      → ((d : Dock) → (fill d).receipts ≡ d.receipts)
      → Recorded c hash r d
      → control digest fill env action raw d ≡ (
          if hash == digest action (without_id (normalize action raw))
          then (filled digest fill action d, ok r)
          else (filled digest fill action d, err command_conflict))
  unfolding control
  answered env action raw d c hash r same e keeps (old, found, h, replayed) =
      let start = filled digest fill action d in
      let extra = normalize action raw in
      let hash' = digest action (without_id extra) in
      answer-receipt (is_empty_id (command_id extra))
        (load_receipt (command_id extra) start.receipts) hash' start
        (execute env action extra (command_id extra) hash' start) (ap is_empty_id same ∙ e)
        (ap₂ load_receipt same (if-receipts (refills action) d keeps) ∙ found) replayed h

  -- The receipt of a command that succeeded.
  recorded :
      (env : Env) (action : Action) (raw : Fields) (d : Dock) {d₁ : Dock} {r : Reply}
      → is_empty_id (command_id (normalize action raw)) ≡ false
      → control digest fill env action raw d ≡ (d₁, ok r)
      → Recorded
          (command_id (normalize action raw))
          (digest action (without_id (normalize action raw)))
          r
          d₁
  unfolding control
  recorded env action raw d {d₁} {r} e h =
      let start = filled digest fill action d in
      let extra = normalize action raw in
      let c = command_id extra in
      let hash = digest action (without_id extra) in
      let m = control_tx env action extra start in
      let found = load_receipt c start.receipts in
      Ended-Recorded (is_empty_id c) c hash start m d₁ r e (
        subst (λ (x : Dock × Try Reply). Ended (is_empty_id c) c hash start found m x.0 x.1) h
          (answer-Ended (is_empty_id c) c hash start found m))

  -- A command with an id that succeeded can be sent again, by anyone and at any time before the next
  -- command: the second time it changes nothing but the refill of a skip, and its reply is the
  -- first's. The refill must leave the receipts alone.
  pub control_twice :
      (env env' : Env) (action : Action) (raw : Fields) (d : Dock) {d₁ : Dock} {r : Reply}
      → ((d : Dock) → (fill d).receipts ≡ d.receipts)
      → is_empty_id (command_id (normalize action raw)) ≡ false
      → control digest fill env action raw d ≡ (d₁, ok r)
      → control digest fill env' action raw d₁ ≡ (filled digest fill action d₁, ok r)
  control_twice env env' action raw d {d₁} {r} keeps e h =
      let hash = digest action (without_id (normalize action raw)) in
      answered env' action raw d₁ (command_id (normalize action raw)) hash r refl e keeps
        (recorded env action raw d e h)
      ∙ rw (==-refl hash) refl

  -- After a command with an id succeeded, another action or other extras under the same id are refused
  -- as a conflict, if their digest differs, and change nothing but the refill of a skip, which must
  -- leave the receipts alone.
  pub control_conflict :
      (env env' : Env) (action action' : Action) (raw raw' : Fields) (d : Dock) {d₁ : Dock}
      {r : Reply}
      → ((d : Dock) → (fill d).receipts ≡ d.receipts)
      → is_empty_id (command_id (normalize action raw)) ≡ false
      → command_id (normalize action' raw') ≡ command_id (normalize action raw)
      → digest action' (without_id (normalize action' raw'))
        ≢ digest action (without_id (normalize action raw))
      → control digest fill env action raw d ≡ (d₁, ok r)
      → control digest fill env' action' raw' d₁
        ≡ (filled digest fill action' d₁, err command_conflict)
  control_conflict env env' action action' raw raw' d {d₁} {r} keeps e same differ h =
      answered env' action' raw' d₁ (command_id (normalize action raw))
        (digest action (without_id (normalize action raw))) r same e keeps
        (recorded env action raw d e h)
      ∙ if-other (digest action (without_id (normalize action raw)))
          (digest action' (without_id (normalize action' raw'))) _ _ differ
