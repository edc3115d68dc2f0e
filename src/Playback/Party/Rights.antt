-- ===== src/Playback/Party/Rights.antt =====
-- What the answers of `PartyAllowed` (internal/playback/party_perms.go) mean, and who loses a right.
use sound_dock.Base.{
  ℕ, ◌<◌, ◌≡◌, refl, ◌≢◌, ◌⊎◌, inl, inr, true, Option, none, some, String, ok, err, arith,
  if◌then◌else◌, holds, Bool-cases,
}
use mathlib.Core.Logic.{◌↔◌}
use sound_dock.Playback.Session.{party_inactive, join_first}
use sound_dock.Playback.Party.{
  Party, Role, is_active, party_active, party_allowed, allowed_to_guests, allowed_as, remove_member,
  disable_party, leave_party,
}

-- The party is on and its end, if it has one, is still to come.
abbrev pub IsOn : ℕ → Party → Type 0
IsOn now p = (p.enabled ≡ true) × ((at : ℕ) → p.expires_at ≡ some at → now < at)

-- The host, a DJ, or a guest whom the host allows the action.
abbrev pub MayAct : ℕ → String → Party → Type 0
MayAct actor action p =
    (p.host ≡ some actor)
    ⊎ ((p.members actor ≡ some Role.host)
        ⊎ ((p.members actor ≡ some Role.dj)
            ⊎ ((p.members actor ≡ some Role.guest)
                × (allowed_to_guests action p.permissions ≡ true))))

active-IsOn : (now : ℕ) (p : Party) → is_active now p ≡ true → IsOn now p
unfolding party_active
active-IsOn now p h = (ground arith, λ at e. ground arith)

IsOn-active : (now : ℕ) (p : Party) → IsOn now p → is_active now p ≡ true
unfolding party_active
IsOn-active now p (on, later) = go p.expires_at refl
  where
    go : (o : Option ℕ) → p.expires_at ≡ o → is_active now p ≡ true
    go none e = ground arith
    go (some at) e = ground (arith, later at e)

holds_iff : (o : Option ℕ) (u : ℕ) → (holds o u ≡ true) ↔ (o ≡ some u)
holds_iff none u = (λ h. cc, λ h. cc)
holds_iff (some v) u = ground arith

allowed_as-MayAct :
    (actor : ℕ) (action : String) (p : Party) (r : Option Role)
    → p.members actor ≡ r
    → allowed_as r action p.permissions ≡ ok tt
    → MayAct actor action p
allowed_as-MayAct actor action p none e h = cc
allowed_as-MayAct actor action p (some Role.host) e h = inr (inl e)
allowed_as-MayAct actor action p (some Role.dj) e h = inr (inr (inl e))
allowed_as-MayAct actor action p (some Role.guest) e h = inr (inr (inr (e, ground arith)))

-- `PartyAllowed` lets a user do an action exactly when the party is on and the user is its host, a DJ,
-- or a guest whom the permissions allow it.
pub party_allowed_iff :
    (now actor : ℕ) (action : String) (p : Party)
    → (party_allowed now actor action p ≡ ok tt) ↔ (IsOn now p × MayAct actor action p)
unfolding party_allowed
party_allowed_iff now actor action p = (forth, back)
  where
    forth : party_allowed now actor action p ≡ ok tt → IsOn now p × MayAct actor action p
    forth h = elim (Bool-cases (is_active now p)) [
      | inr e ↦ ground arith
      | inl e ↦ (
        active-IsOn now p e,
        elim (Bool-cases (holds p.host actor)) [
          | inl hosts ↦ inl ((holds_iff p.host actor).0 hosts)
          | inr other ↦ allowed_as-MayAct actor action p (p.members actor) refl (ground arith)
        ],
      )
    ]

    back : IsOn now p × MayAct actor action p → party_allowed now actor action p ≡ ok tt
    back (on, may) = ground (arith, IsOn-active now p on, holds_iff p.host actor)

-- Right after the host left the party or disabled it, no one may do anything, at any time: the answer
-- is that the party is inactive.
pub leave-ends :
    (host now actor : ℕ) (action : String) (p : Party)
    → p.host ≡ some host
    → (party_allowed now actor action (leave_party host p).0 ≡ err party_inactive)
      × (party_allowed now actor action (disable_party host p).0 ≡ err party_inactive)
unfolding party_allowed leave_party disable_party party_active
leave-ends host now actor action p e =
    (ground (arith, holds_iff p.host host), ground (arith, holds_iff p.host host))

-- Right after the host removed a member who is not the host, that user may do nothing: the answer is
-- to join first, or that the party is inactive.
pub remove-bars :
    (now now' host member : ℕ) (action : String) (p : Party) {q : Party}
    → member ≢ host
    → p.members member ≢ some Role.host
    → remove_member now host member p ≡ (q, ok tt)
    → party_allowed now' member action q
      ≡ (if is_active now' q then err join_first else err party_inactive)
unfolding party_allowed remove_member
remove-bars now now' host member action p {q} other h e = ground (arith, other, h)
