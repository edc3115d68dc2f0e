-- ===== src/Listen/Qualify.antt =====
-- A play that counts was listened to (internal/listen/shadow.go).
use sound_dock.Base.{
  ℕ, ◌+◌, ◌*◌, ◌≤◌, ◌≡◌, ◌≢◌, ◌==◌, ◌||◌, ◌∙◌, refl, inl, inr, ℤ, pos, ltb, ltb_ℤ, at_least,
  sub_int64, floor_zero, true, false, not, ◌&&◌, Option, none, some, List, [], ◌∷◌, ◌++◌, String,
  str_eq, if◌then◌else◌, if-either, if_cases, any, All, All-append, All-imp, Bool-cases, arith,
  subst, sym, ==_iff, ==-refl,
}
use sound_dock.Listen.Decide.{threshold_ms, normalize_source}
use sound_dock.Listen.Credit.{
  Fsm, Credited, credit, credits, credit_since, step_credit, max_credit, max_gap, wall_ms,
  rate_or_one, with_sequence, is_stale, playing_status, is_audio_listener, output_of,
}
use sound_dock.Listen.Shadow.{
  Checkpoint, Entry, Log, insert_event, qualify, qualifies, skip, save_fsm, sync_output_segment,
  step, heard, sourced, apply_shadow, apply_all, of_checkpoint, load_fsm, with_output,
}

-- No row, no event and no segment.
abbrev pub nothing_yet : Log
nothing_yet = record { row = none; entries = []; segments = [] }

-- The checkpoints of a track among these.
abbrev pub count_of : ℕ → List (ℕ × Checkpoint) → ℕ
count_of track [] = 0
count_of track ((now, cp) ∷ cps) = (if cp.track == track then 1 else 0) + count_of track cps

-- An entry `qualify` says that the threshold of its track was listened to, and what an entry says was
-- listened to can come from the checkpoints of its own track: five seconds of each, at most. `n` is how
-- many there were of each track.
abbrev pub IsEarned : (ℕ → ℕ) → Entry → Type 0
IsEarned n e =
    (str_eq e.kind "qualify" ≡ true → ltb_ℤ (pos e.accumulated) (threshold_ms e.duration) ≡ false)
    × (e.accumulated ≤ 5000 * n e.track)

-- So can what the row has accumulated.
abbrev pub IsBacked : (ℕ → ℕ) → Option Fsm → Type 0
IsBacked n none = Unit {0}
IsBacked n (some st) = (st.track ≢ 0) × (st.accumulated ≤ 5000 * n st.track)

-- No kind of entry comes twice.
abbrev pub HasOnce : List Entry → Type 0
HasOnce [] = Unit {0}
HasOnce (e ∷ es) = (any (λ (f : Entry). str_eq e.kind f.kind) es ≡ false) × HasOnce es

abbrev pub IsHonest : (ℕ → ℕ) → Log → Type 0
IsHonest n log = All (IsEarned n) log.entries × HasOnce log.entries × IsBacked n log.row

any-add :
    (kind : String) (es : List Entry) (x : Entry)
    → any (λ (f : Entry). str_eq kind f.kind) es ≡ false
    → str_eq kind x.kind ≡ false
    → any (λ (f : Entry). str_eq kind f.kind) (es ++ (x ∷ [])) ≡ false
any-add kind [] x h g = ground arith
any-add kind (e ∷ es) x h g = ground (arith, any-add kind es x (ground arith) g)

HasOnce-add :
    (es : List Entry) (x : Entry)
    → HasOnce es
    → any (λ (e : Entry). str_eq e.kind x.kind) es ≡ false
    → HasOnce (es ++ (x ∷ []))
HasOnce-add [] x h g = (refl, tt)
HasOnce-add (e ∷ es) x (h, hs) g =
    (any-add e.kind es x h (ground arith), HasOnce-add es x hs (ground arith))

-- More checkpoints back what fewer do.
All-more :
    (n more : ℕ → ℕ) (es : List Entry)
    → ((k : ℕ) → n k ≤ more k)
    → All (IsEarned n) es
    → All (IsEarned more) es
All-more n more es le h =
    All-imp (IsEarned n) (IsEarned more) es
      (λ e (earned, few). (earned, omega (arith, few, le e.track))) h

IsHonest-more :
    (n more : ℕ → ℕ) (log : Log) → ((k : ℕ) → n k ≤ more k) → IsHonest n log → IsHonest more log
IsHonest-more n more log le (all, once, backed) =
    (All-more n more log.entries le all, once, more_backed log.row backed)
  where
    more_backed : (row : Option Fsm) → IsBacked n row → IsBacked more row
    more_backed none h = tt
    more_backed (some st) (named, few) = (named, omega (arith, few, le st.track))

-- A state of the checkpoint's track that its checkpoints back.
abbrev Fits : (ℕ → ℕ) → Checkpoint → Fsm → Type 0
Fits n cp st = (cp.track ≢ 0) × (st.track ≡ cp.track) × (st.accumulated ≤ 5000 * n cp.track)

save_fsm-IsHonest :
    (n : ℕ → ℕ) (now : ℕ) (cp : Checkpoint) (st : Fsm) (log : Log)
    → Fits n cp st
    → IsHonest n log
    → IsHonest n (save_fsm now st log)
save_fsm-IsHonest n now cp st log (named, same, few) (all, once, backed) = (
  all,
  once,
  ((λ e. named (sym same ∙ e)), subst (λ k. st.accumulated ≤ 5000 * n k) (sym same) few),
)

insert_event-IsHonest :
    (n : ℕ → ℕ) (now : ℕ) (kind : String) (cp : Checkpoint) (st : Fsm) (log : Log)
    → Fits n cp st
    → (str_eq kind "qualify" ≡ true → ltb_ℤ (pos st.accumulated) (threshold_ms cp.duration) ≡ false)
    → IsHonest n log
    → IsHonest n (insert_event now kind cp st log)
unfolding insert_event
insert_event-IsHonest n now kind cp st log (named, same, few) earned (all, once, backed) =
    elim (Bool-cases (any (λ (e : Entry). str_eq e.kind kind) log.entries)) [
      | inl there ↦ rw there (all, once, backed)
      | inr fresh ↦ rw fresh (
        All-append (IsEarned n) log.entries _ all ((earned, few), tt),
        HasOnce-add log.entries _ once fresh,
        backed,
      )
    ]

qualify-IsHonest :
    (n : ℕ → ℕ) (now : ℕ) (cp : Checkpoint) (st : Fsm) (log : Log)
    → Fits n cp st
    → IsHonest n log
    → Fits n cp (qualify now cp st log).0 × IsHonest n (qualify now cp st log).1
unfolding qualify
qualify-IsHonest n now cp st log fits h = elim (Bool-cases (qualifies cp st)) [
  | inl does ↦ rw does (
    fits,
    insert_event-IsHonest n now "qualify" cp (record st { qualified = true }) log fits
        (λ q. ground arith) h,
  )
  | inr short ↦ rw short (fits, h)
]

skip-IsHonest :
    (n : ℕ → ℕ) (now : ℕ) (cp : Checkpoint) (st : Fsm) (log : Log)
    → Fits n cp st
    → IsHonest n log
    → IsHonest n (skip now cp (st, log))
unfolding skip
skip-IsHonest n now cp st log fits h =
    if-either (IsHonest n) st.skipped (save_fsm-IsHonest n now cp st log fits h) (
      save_fsm-IsHonest n now cp (record st { skipped = true })
        (insert_event now "skip" cp (record st { skipped = true }) log) fits
        (insert_event-IsHonest n now "skip" cp (record st { skipped = true }) log fits
          (λ q. ground arith) h))

sync-IsHonest :
    (n : ℕ → ℕ) (now : ℕ) (output : String) (log : Log)
    → IsHonest n log
    → IsHonest n (sync_output_segment now output log)
unfolding sync_output_segment
sync-IsHonest n now output log h = if-either (IsHonest n) (str_eq output "") h h

with_output-Fits :
    (n : ℕ → ℕ) (cp : Checkpoint) (output : String) (st : Fsm)
    → Fits n cp st
    → Fits n cp (with_output output st)
with_output-Fits n cp output st fits = if-either (Fits n cp) (str_eq output "") fits fits

-- A checkpoint credits five seconds at most.
abbrev Grows : Fsm → Credited → Type 0
Grows st got = (got.next.track ≡ st.track) × (got.next.accumulated ≤ st.accumulated + 5000)

credits-Grows :
    (st u : Fsm) (n : ℕ)
    → u.track ≡ st.track
    → u.accumulated ≡ st.accumulated
    → n ≤ 5000
    → Grows st (credits n u)
credits-Grows st u n same equal small = (same, omega (arith, equal, small))

step_credit-small : (forward cap : ℤ) → step_credit forward cap ≤ 5000
step_credit-small forward cap = ground arith

module _ (scale : ℤ → ℕ → ℤ) where
  since-Grows :
      (last : Option ℕ) (position : ℤ) (status : String) (rate : ℤ) (now : ℕ) (st u : Fsm)
      → u.track ≡ st.track
      → u.accumulated ≡ st.accumulated
      → Grows st (credit_since scale last position status rate now u)
  since-Grows none position status rate now st u same equal =
      credits-Grows st (record u { last_checkpoint = some now; last_position = position })
        (if playing_status status && not (ltb_ℤ (pos max_credit) position)
          then floor_zero position
          else 0)
        same equal (ground arith)
  since-Grows (some last) position status rate now st u same equal =
      let wall = wall_ms last now in
      let stepped =
        step_credit (sub_int64 position u.last_position)
          (at_least (pos 0) (scale (rate_or_one rate) wall)) in
      credits-Grows st (record u { last_checkpoint = some now; last_position = position })
        (if playing_status status && not (ltb max_gap wall) && ltb_ℤ u.last_position position
          then stepped
          else 0)
        same equal
        (if-either (λ k. k ≤ 5000)
          (playing_status status && not (ltb max_gap wall) && ltb_ℤ u.last_position position)
          (step_credit-small (sub_int64 position u.last_position)
            (at_least (pos 0) (scale (rate_or_one rate) wall)))
          (omega arith))

  credit-Grows :
      (st : Fsm) (position sequence : ℤ) (status : String) (rate : ℤ) (now : ℕ)
      → Grows st (credit scale st position sequence status rate now)
  unfolding credit
  credit-Grows st position sequence status rate now =
      if-either (Grows st) (is_stale sequence st) (refl, omega arith)
        (since-Grows st.last_checkpoint position status rate now st (with_sequence sequence st)
          (if-either (λ (x : Fsm). x.track ≡ st.track) (ltb_ℤ (pos 0) sequence) refl refl)
          (if-either (λ (x : Fsm). x.accumulated ≡ st.accumulated) (ltb_ℤ (pos 0) sequence) refl
            refl))

  heard-IsHonest :
      (n : ℕ → ℕ) (now : ℕ) (cp : Checkpoint) (got : Credited) (log : Log)
      → Fits n cp got.next
      → IsHonest n log
      → IsHonest n (heard scale now cp got log)
  heard-IsHonest n now cp got log fits h =
      let output = output_of cp.renderer_kind in
      let (fitting, kept) =
        qualify-IsHonest n now cp (with_output output got.next) (sync_output_segment now output log)
          (with_output-Fits n cp output got.next fits) (sync-IsHonest n now output log h) in
      if-either (IsHonest n) got.is_dropped h (
        save_fsm-IsHonest n now cp
          (qualify now cp (with_output output got.next) (sync_output_segment now output log)).0
          (qualify now cp (with_output output got.next) (sync_output_segment now output log)).1
          fitting kept)

  -- What the state has and five seconds more are backed.
  step-IsHonest :
      (n : ℕ → ℕ) (now : ℕ) (cp : Checkpoint) (st : Fsm) (log : Log)
      → cp.track ≢ 0
      → st.track ≡ cp.track
      → st.accumulated + 5000 ≤ 5000 * n cp.track
      → IsHonest n log
      → IsHonest n (step scale now cp st log)
  step-IsHonest n now cp st log named same room h =
      let fits : Fits n cp st = (named, same, omega (arith, room)) in
      let (fitting, kept) = qualify-IsHonest n now cp st log fits h in
      let (on, grown) = credit-Grows st cp.position cp.sequence cp.status cp.rate now in
      if-either (IsHonest n) (str_eq cp.kind "skip")
        (if-either (IsHonest n) cp.stop_after (save_fsm-IsHonest n now cp st log fits h)
          (skip-IsHonest n now cp (qualify now cp st log).0 (qualify now cp st log).1 fitting kept))
        (if-either (IsHonest n)
          (is_audio_listener cp.kind cp.renderer_kind cp.renderer cp.client cp.device
            cp.audio_listener)
          (heard-IsHonest n now cp (credit scale st cp.position cp.sequence cp.status cp.rate now)
            log (named, on ∙ same, omega (arith, room, grown)) h)
          h)

  -- The state that a checkpoint finds is of its track, and backed by the earlier ones of that track.
  of_checkpoint-backed :
      (n : ℕ → ℕ) (now : ℕ) (cp : Checkpoint) (row : Option Fsm)
      → IsBacked n row
      → ((of_checkpoint now cp (load_fsm row)).track ≡ cp.track)
        × ((of_checkpoint now cp (load_fsm row)).accumulated ≤ 5000 * n cp.track)
  of_checkpoint-backed n now cp none h = (ground arith, ground arith)
  of_checkpoint-backed n now cp (some st) (named, few) = elim (Bool-cases (st.track == cp.track)) [
    | inl same ↦
        let e : st.track ≡ cp.track = (==_iff st.track cp.track).0 same in
        let fewer : st.accumulated ≤ 5000 * n cp.track =
          subst (λ k. st.accumulated ≤ 5000 * n k) e few in
        (ground (arith, e), ground (arith, fewer))
    | inr other ↦ (ground arith, ground arith)
  ]

  abbrev with_one : Checkpoint → (ℕ → ℕ) → ℕ → ℕ
  with_one cp n k = (if cp.track == k then 1 else 0) + n k

  sourced-IsHonest :
      (n : ℕ → ℕ) (now : ℕ) (cp : Checkpoint) (source : Option String) (log : Log)
      → cp.track ≢ 0
      → IsHonest n log
      → IsHonest (with_one cp n) (sourced scale now cp source log)
  sourced-IsHonest n now cp none log named h =
      IsHonest-more n (with_one cp n) log (λ k. omega arith) h
  sourced-IsHonest n now cp (some source) log named (all, once, row) =
      let (same, few) = of_checkpoint-backed n now cp log.row row in
      let more = IsHonest-more n (with_one cp n) log (λ k. omega arith) (all, once, row) in
      if-either (IsHonest (with_one cp n)) (str_eq source "import") more (
        step-IsHonest (with_one cp n) now (record cp { source = source })
          (of_checkpoint now cp (load_fsm log.row)) log named same
          (ground (arith, few, ==-refl cp.track)) more)

  apply_shadow-IsHonest :
      (n : ℕ → ℕ) (now : ℕ) (cp : Checkpoint) (log : Log)
      → IsHonest n log
      → IsHonest (with_one cp n) (apply_shadow scale now cp log)
  unfolding apply_shadow
  apply_shadow-IsHonest n now cp log h =
      if_cases (IsHonest (with_one cp n)) (cp.instance_id == 0 || cp.track == 0)
        (λ e. IsHonest-more n (with_one cp n) log (λ k. omega arith) h)
        (λ e. sourced-IsHonest n now cp (normalize_source cp.source) log (λ z. ground (arith, z)) h)

  apply_all-IsHonest_of :
      (cps : List (ℕ × Checkpoint)) (n : ℕ → ℕ) (log : Log)
      → IsHonest n log
      → IsHonest (λ k. count_of k cps + n k) (apply_all scale cps log)
  unfolding apply_all
  apply_all-IsHonest_of [] n log h =
      IsHonest-more n (λ k. count_of k [] + n k) log (λ k. omega arith) h
  apply_all-IsHonest_of ((now, cp) ∷ cps) n log h =
      IsHonest-more (λ k. count_of k cps + with_one cp n k)
        (λ k. count_of k ((now, cp) ∷ cps) + n k)
        (apply_all scale cps (apply_shadow scale now cp log)) (λ k. omega arith)
        (apply_all-IsHonest_of cps (with_one cp n) (apply_shadow scale now cp log)
          (apply_shadow-IsHonest n now cp log h))

  -- Whatever checkpoints a client sends, of whatever tracks and in any order: no kind of event is written
  -- twice for an instance; one that says that a track counts as played comes with the threshold of the
  -- track listened to; and what an event says was listened to is at most five seconds for each checkpoint
  -- of its own track, so that nothing of it was heard in another.
  pub apply_all-IsHonest :
      (cps : List (ℕ × Checkpoint))
      → IsHonest (λ k. count_of k cps) (apply_all scale cps nothing_yet)
  apply_all-IsHonest cps =
      IsHonest-more (λ k. count_of k cps + 0) (λ k. count_of k cps)
        (apply_all scale cps nothing_yet) (λ k. omega arith)
        (apply_all-IsHonest_of cps (λ k. 0) nothing_yet (tt, tt, tt))
