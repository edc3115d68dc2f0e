-- ===== src/Playback/Binding/Grant.antt =====
-- A guild's bind grants the renderer lease of the session (internal/playback/bind.go).
use text.Mathlib.TextPositions.{eq_refl}
use sound_dock.Base.{
  ℕ, ℤ, eq_ℤ-refl, ◌≡◌, refl, inl, inr, ap, subst, ◌∙◌, true, not, ◌&&◌, Option, some, String,
  if-either, any, is_some, Option-cases, arith, ok, err, ==-refl, ◌>>=◌,
}
use sound_dock.Playback.Session.{Session, RendererKind, OutputPref, Try, foreign_key}
use sound_dock.Playback.Lease.{is_held_by, grant_discord}
use sound_dock.Playback.Binding.{
  Runtime, Voice, BindResult, is_guild, ensure, bound_row, bind_discord_renderer,
  bind_discord_found, id_or_nil, lock_both, row_of, is_outdated, guard, leave_old, change, granted,
  revision_of,
}

leave_old-same :
    (old sid : ℕ) (sessions : ℕ → Option Session) → leave_old old sid sessions sid ≡ sessions sid
leave_old-same old sid sessions = ground arith

lock_both-some :
    (sid old : ℕ) (v : Voice) → lock_both sid old v ≡ ok tt → is_some (v.sessions sid) ≡ true
lock_both-some sid old v e = ground arith

change-at :
    (id : ℕ) (f : Session → Session) (sessions : ℕ → Option Session) (s : Session)
    → sessions id ≡ some s
    → change id f sessions id ≡ some (f s)
change-at id f sessions s e = rw (==-refl id, e) refl

granted-held :
    (now : ℕ) (id : String) (generation : ℤ) (s : Session)
    → is_held_by (granted now id generation s).lease RendererKind.discord id generation ≡ true
unfolding grant_discord
granted-held now id generation s = ground (arith, eq_refl id, eq_ℤ-refl generation)

granted-output :
    (now : ℕ) (id : String) (generation : ℤ) (s : Session)
    → (granted now id generation s).lease.output ≡ OutputPref.discord
unfolding grant_discord
granted-output now id generation s = refl

-- Discord renders the session for the bot, and the answer has the revision of its state.
abbrev Grants : ℕ → String → ℤ → Try (Voice × BindResult) → Type 0
Grants sid id generation (err e) = Unit
Grants sid id generation (ok (w, answer)) =
    (s : Session) × (w.sessions sid ≡ some s)
    × (is_held_by s.lease RendererKind.discord id generation ≡ true)
    × (s.lease.output ≡ OutputPref.discord)
    × (answer.state_revision ≡ s.revision)

>>=-Grants :
    {A : Type 0} (sid : ℕ) (id : String) (generation : ℤ) (step : Try A)
    (rest : A → Try (Voice × BindResult))
    → ((value : A) → step ≡ ok value → Grants sid id generation (rest value))
    → Grants sid id generation (step >>= rest)
>>=-Grants sid id generation (err e) rest h = tt
>>=-Grants sid id generation (ok value) rest h = h value refl

bind_discord_found-Grants :
    (now : ℕ) (g : String) (sid : ℕ) (channel id : String) (generation : ℤ) (r : Runtime)
    (v : Voice)
    → Grants sid id generation (bind_discord_found now g sid channel id generation r v)
bind_discord_found-Grants now g sid channel id generation r v =
    >>=-Grants sid id generation (lock_both sid (id_or_nil r.session) v) _ (λ u locked.
      elim (Option-cases (v.sessions sid)) [
        | inl gone ↦ absurd (ground (arith, lock_both-some sid (id_or_nil r.session) v locked))
        | inr (s, there) ↦
            let now_there =
              change-at sid (granted now id generation)
                (leave_old (id_or_nil r.session) sid v.sessions) s
                (leave_old-same (id_or_nil r.session) sid v.sessions ∙ there) in
            (
              granted now id generation s,
              now_there,
              granted-held now id generation s,
              granted-output now id generation s,
              ap revision_of now_there,
            )
      ])

bind_discord_renderer-Grants :
    (now : ℕ) (g : String) (sid : ℕ) (channel : String) (expected : ℤ) (id : String)
    (generation : ℤ) (v : Voice)
    → Grants sid id generation (bind_discord_renderer now g sid channel expected id generation v)
unfolding bind_discord_renderer
bind_discord_renderer-Grants now g sid channel expected id generation v =
    >>=-Grants sid id generation
      (guard (not (any (is_guild g) v.runtimes) && not (is_some (v.sessions sid)))
        (err foreign_key))
      _
      (λ u e.
        >>=-Grants sid id generation (row_of g (ensure (bound_row g sid channel) v.runtimes)) _
          (λ r e2. if-either (Grants sid id generation) (is_outdated expected r) tt (
            bind_discord_found-Grants now g sid channel id generation r
              (record v { runtimes = ensure (bound_row g sid channel) v.runtimes }))))

-- A bind of Discord's renderer that commits leaves the session's lease with the bot, under the
-- identifier and the generation that it names and with Discord as the output; and it answers the
-- revision that the session has then.
pub bind_discord_grants :
    (now : ℕ) (g : String) (sid : ℕ) (channel : String) (expected : ℤ) (id : String)
    (generation : ℤ) (v w : Voice) (answer : BindResult)
    → bind_discord_renderer now g sid channel expected id generation v ≡ ok (w, answer)
    → (s : Session) × (w.sessions sid ≡ some s)
      × (is_held_by s.lease RendererKind.discord id generation ≡ true)
      × (s.lease.output ≡ OutputPref.discord)
      × (answer.state_revision ≡ s.revision)
bind_discord_grants now g sid channel expected id generation v w answer done =
    subst (Grants sid id generation) done
      (bind_discord_renderer-Grants now g sid channel expected id generation v)
