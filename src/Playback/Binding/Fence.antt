-- ===== src/Playback/Binding/Fence.antt =====
-- The binding revision fences off a bot that works from an old one (internal/playback/bind.go).
use sound_dock.Base.{
  ℕ, ℤ, pos, eq_ℤ, ◌≡◌, refl, inl, inr, ap, sym, subst, Bool, true, false, not, ◌&&◌, some, List,
  [], ◌∷◌, ◌++◌, String, if◌then◌else◌, if-true, any, is_some, holds, Option-cases, arith, ok, err,
  update, changed, ◌>>=◌,
}
use sound_dock.Playback.Session.{Try, bind_conflict, foreign_key}
use sound_dock.Playback.Binding.{
  Runtime, Voice, BindResult, is_guild, find_guild, ensure, fresh_row, bound_row, is_elsewhere,
  moved_away, release_other_guilds, bind_row, unbound_row, bind_guild_session,
  bind_discord_renderer, unbind_discord_renderer, bind_found, id_or_nil, lock_both, row_of,
  is_outdated, same_voice_channel, guard,
}
use sound_dock.Playback.Binding.OneGuild.{BindOp, attempt}

abbrev pub guild_of : BindOp → String
guild_of (BindOp.bind g sid channel expected) = g
guild_of (BindOp.bind_renderer now g sid channel expected id generation) = g
guild_of (BindOp.unbind g expected id generation) = g

abbrev pub expected_of : BindOp → ℤ
expected_of (BindOp.bind g sid channel expected) = expected
expected_of (BindOp.bind_renderer now g sid channel expected id generation) = expected
expected_of (BindOp.unbind g expected id generation) = expected

find_guild-is :
    (g : String) (rows : List Runtime) (r : Runtime)
    → find_guild g rows ≡ some r
    → is_guild g r ≡ true
find_guild-is g [] r e = cc
find_guild-is g (q ∷ rows) r e = ground (arith, find_guild-is g rows r)

find_guild-any :
    (g : String) (rows : List Runtime) (r : Runtime)
    → find_guild g rows ≡ some r
    → any (is_guild g) rows ≡ true
find_guild-any g [] r e = cc
find_guild-any g (q ∷ rows) r e = ground (arith, find_guild-any g rows r)

find_guild-update :
    (g : String) (p : Runtime → Bool) (f : Runtime → Runtime) (rows : List Runtime) (r : Runtime)
    → ((q : Runtime) → (f q).guild ≡ q.guild)
    → find_guild g rows ≡ some r
    → find_guild g (update p f rows) ≡ some (changed p f r)
unfolding update
find_guild-update g p f [] r same e = cc
find_guild-update g p f (q ∷ rows) r same e =
    ground (arith, same q, find_guild-update g p f rows r same)

row_of-found :
    (g : String) (rows : List Runtime) (r : Runtime)
    → row_of g rows ≡ ok r
    → find_guild g rows ≡ some r
row_of-found g rows r e = elim (Option-cases (find_guild g rows)) [
  | inl missing ↦ absurd (ground arith)
  | inr (q, found) ↦ ground arith
]

-- A transaction that commits answers the binding revision that its guild has afterwards.
abbrev Answers : String → Try (Voice × BindResult) → Type 0
Answers g (err e) = Unit
Answers g (ok (v, answer)) =
    (r : Runtime) × (find_guild g v.runtimes ≡ some r) × (r.revision ≡ answer.binding_revision)

>>=-Answers :
    {A : Type 0} (g : String) (step : Try A) (rest : A → Try (Voice × BindResult))
    → ((value : A) → step ≡ ok value → Answers g (rest value))
    → Answers g (step >>= rest)
>>=-Answers g (err e) rest h = tt
>>=-Answers g (ok value) rest h = h value refl

if-Answers :
    (g : String) (b : Bool) (x y : Try (Voice × BindResult))
    → (b ≡ true → Answers g x)
    → (b ≡ false → Answers g y)
    → Answers g (if b then x else y)
if-Answers g true x y h k = h refl
if-Answers g false x y h k = k refl

changed-guild :
    (g : String) (f : Runtime → Runtime) (r : Runtime)
    → is_guild g r ≡ true
    → changed (is_guild g) f r ≡ f r
changed-guild g f r h = rw h refl

changed-elsewhere :
    (sid : ℕ) (g : String) (r : Runtime)
    → is_guild g r ≡ true
    → changed (is_elsewhere sid g) moved_away r ≡ r
changed-elsewhere sid g r h = ground arith

bind_found-Answers :
    (g : String) (sid : ℕ) (channel : String) (r : Runtime) (v : Voice)
    → find_guild g v.runtimes ≡ some r
    → Answers g (bind_found g sid channel r v)
unfolding release_other_guilds
bind_found-Answers g sid channel r v found =
    let it = find_guild-is g v.runtimes r found in
    let stays =
      find_guild-update g (is_elsewhere sid g) moved_away v.runtimes r (λ q. refl) found in
    if-Answers g (holds r.session sid && same_voice_channel r.channel channel) _ _
      (λ h. (
        changed (is_elsewhere sid g) moved_away r,
        stays,
        ap (λ x. x.revision) (changed-elsewhere sid g r it),
      ))
      (λ h. >>=-Answers g (lock_both sid (id_or_nil r.session) v) _ (λ u e. (
        changed (is_guild g) (bind_row sid channel) (changed (is_elsewhere sid g) moved_away r),
        find_guild-update g (is_guild g) (bind_row sid channel)
            (update (is_elsewhere sid g) moved_away v.runtimes)
            (changed (is_elsewhere sid g) moved_away r) (λ q. refl) stays,
        ground (arith, changed-elsewhere sid g r it),
      )))

attempt-Answers : (op : BindOp) (v : Voice) → Answers (guild_of op) (attempt op v)
unfolding bind_guild_session bind_discord_renderer unbind_discord_renderer release_other_guilds
attempt-Answers (BindOp.bind g sid channel expected) v =
    let rows = ensure (fresh_row g) v.runtimes in
    >>=-Answers g (row_of g rows) _ (λ r e.
      if-Answers g (is_outdated expected r) _ _ (λ h. tt)
        (λ h.
          bind_found-Answers g sid channel r (record v { runtimes = rows })
            (row_of-found g rows r e)))
attempt-Answers (BindOp.bind_renderer now g sid channel expected id generation) v =
    let rows = ensure (bound_row g sid channel) v.runtimes in
    >>=-Answers g
      (guard (not (any (is_guild g) v.runtimes) && not (is_some (v.sessions sid)))
        (err foreign_key))
      _
      (λ u i. >>=-Answers g (row_of g rows) _ (λ r e.
        if-Answers g (is_outdated expected r) _ _ (λ h. tt)
          (λ h.
            >>=-Answers g (lock_both sid (id_or_nil r.session) (record v { runtimes = rows })) _
              (λ u e2.
                let found = row_of-found g rows r e in
                let it = find_guild-is g rows r found in
                (
                  changed (is_elsewhere sid g) moved_away
                      (changed (is_guild g) (bind_row sid channel) r),
                  find_guild-update g (is_elsewhere sid g) moved_away
                      (update (is_guild g) (bind_row sid channel) rows)
                      (changed (is_guild g) (bind_row sid channel) r) (λ q. refl)
                      (find_guild-update g (is_guild g) (bind_row sid channel) rows r (λ q. refl)
                        found),
                  ground arith,
                )))))
attempt-Answers (BindOp.unbind g expected id generation) v =
    let rows = ensure (fresh_row g) v.runtimes in
    >>=-Answers g (row_of g rows) _ (λ r e.
      if-Answers g (is_outdated expected r) _ _ (λ h. tt)
        (λ h.
          let found = row_of-found g rows r e in
          (
            changed (is_guild g) unbound_row r,
            find_guild-update g (is_guild g) unbound_row rows r (λ q. refl) found,
            ap (λ x. x.revision) (changed-guild g unbound_row r (find_guild-is g rows r found)),
          )))

row_of-ensure :
    (new : Runtime) (rows : List Runtime) (r : Runtime)
    → find_guild new.guild rows ≡ some r
    → row_of new.guild (ensure new rows) ≡ ok r
row_of-ensure new rows r found =
    subst (λ x. row_of new.guild x ≡ ok r)
      (sym (
        if-true (any (is_guild new.guild) rows) rows (rows ++ (new ∷ []))
          (find_guild-any new.guild rows r found)))
      (rw (row_of, found) refl)

refuse :
    {A : Type 0} (step : Try A) (rest : A → Try (Voice × BindResult)) (value : A)
    → step ≡ ok value
    → rest value ≡ err bind_conflict
    → (step >>= rest) ≡ err bind_conflict
refuse step rest value e h = rw e h

-- A request with an expected revision that is not the guild's is refused.
outdated-refused :
    (op : BindOp) (v : Voice) (r : Runtime)
    → find_guild (guild_of op) v.runtimes ≡ some r
    → is_outdated (expected_of op) r ≡ true
    → attempt op v ≡ err bind_conflict
unfolding bind_guild_session bind_discord_renderer unbind_discord_renderer
outdated-refused (BindOp.bind g sid channel expected) v r found old =
    refuse (row_of g (ensure (fresh_row g) v.runtimes)) _ r
      (row_of-ensure (fresh_row g) v.runtimes r found) (if-true (is_outdated expected r) _ _ old)
outdated-refused (BindOp.bind_renderer now g sid channel expected id generation) v r found old =
    refuse
      (guard (not (any (is_guild g) v.runtimes) && not (is_some (v.sessions sid)))
        (err foreign_key))
      _ tt (rw (find_guild-any g v.runtimes r found) refl)
      (refuse (row_of g (ensure (bound_row g sid channel) v.runtimes)) _ r
        (row_of-ensure (bound_row g sid channel) v.runtimes r found)
        (if-true (is_outdated expected r) _ _ old))
outdated-refused (BindOp.unbind g expected id generation) v r found old =
    refuse (row_of g (ensure (fresh_row g) v.runtimes)) _ r
      (row_of-ensure (fresh_row g) v.runtimes r found) (if-true (is_outdated expected r) _ _ old)

answered_row :
    (g : String) (attempted : Try (Voice × BindResult)) (w : Voice) (answer : BindResult)
    → attempted ≡ ok (w, answer)
    → Answers g attempted
    → (r : Runtime) × (find_guild g w.runtimes ≡ some r) × (r.revision ≡ answer.binding_revision)
answered_row g attempted w answer e h = subst (Answers g) e h

-- Of the requests of one guild that expect the same binding revision, the one that comes after a
-- request that has moved the revision on is refused as a conflict: whoever binds or unbinds from an old
-- state of the guild does nothing. A request that expects revision 0 takes any.
pub stale_refused :
    (op late : BindOp) (v w : Voice) (answer : BindResult)
    → attempt op v ≡ ok (w, answer)
    → guild_of late ≡ guild_of op
    → eq_ℤ (expected_of late) (pos 0) ≡ false
    → eq_ℤ (expected_of late) answer.binding_revision ≡ false
    → attempt late w ≡ err bind_conflict
stale_refused op late v w answer done same named moved =
    let (r, found, revision) =
      answered_row (guild_of op) (attempt op v) w answer done (attempt-Answers op v) in
    outdated-refused late w r (subst (λ g. find_guild g w.runtimes ≡ some r) (sym same) found)
      (ground (arith, revision))
