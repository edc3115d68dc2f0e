-- ===== src/Playback/Party/Order.antt =====
-- What holds of every party, and the changes of its rows that keep it (internal/playback/party.go and
-- party_perms.go).
use sound_dock.Base.{
  ℕ, ◌+◌, ◌≤◌, ◌≡◌, refl, Bool, true, false, ◌&&◌, not, Option, none, some, List, [], ◌∷◌, ◌==◌,
  if◌then◌else◌, arith,
}
use sound_dock.Playback.Party.{
  Party, Role, Vote, drop_votes, drop_vote, set_member, ensured, clear_party, is_guest_or_dj,
}

-- How many votes of a user for a track there are.
abbrev pub count_votes : ℕ → ℕ → List Vote → ℕ
count_votes u t [] = 0
count_votes u t (v ∷ vs) =
    let rest = count_votes u t vs in if v.user == u && v.track == t then rest + 1 else rest

-- The host is the owner and a member, and no one else has the host's role; voters are members, and
-- vote for a track once; without a party there is no host, member or vote.
pub record IsOrderly (p : Party) : Type 0 where
  pub owned : (h : ℕ) → p.host ≡ some h → p.owner ≡ some h
  pub hosted : p.enabled ≡ true → (h : ℕ) × (p.host ≡ some h) × (p.members h ≡ some Role.host)
  pub one_host : (u : ℕ) → p.members u ≡ some Role.host → p.host ≡ some u
  pub idle_host : p.enabled ≡ false → p.host ≡ none
  pub idle_members : (u : ℕ) → p.enabled ≡ false → p.members u ≡ none
  pub voters : (u t : ℕ) → p.members u ≡ none → count_votes u t p.votes ≡ 0
  pub once : (u t : ℕ) → count_votes u t p.votes ≤ 1

-- A request with a guard: nothing changes when the guard fails.
pub guarded :
    {A : Type 0} (b : Bool) (p : Party) (x y : A) (q : Party)
    → IsOrderly p
    → (b ≡ true → IsOrderly q)
    → IsOrderly (if◌then◌else◌ {A = Party × A} (not b) (p, x) (q, y)).0
guarded true p x y q w h = h refl
guarded false p x y q w h = w

pub guarded_else :
    {A : Type 0} (b : Bool) (p : Party) (x y : A) (q : Party)
    → IsOrderly q
    → (b ≡ false → IsOrderly p)
    → IsOrderly (if◌then◌else◌ {A = Party × A} b (q, x) (p, y)).0
guarded_else true p x y q w h = w
guarded_else false p x y q w h = h refl

pub cleared-IsOrderly : (p : Party) → IsOrderly (clear_party p)
cleared-IsOrderly p = record {
  owned = λ h e. cc;
  hosted = λ e. cc;
  one_host = λ u e. cc;
  idle_host = λ e. refl;
  idle_members = λ u e. refl;
  voters = λ u t e. refl;
  once = λ u t. omega arith;
}

pub count-drop_votes :
    (u v t : ℕ) (vs : List Vote)
    → count_votes v t (drop_votes u vs) ≡ (if v == u then 0 else count_votes v t vs)
unfolding drop_votes
count-drop_votes u v t [] = ground arith
count-drop_votes u v t (x ∷ xs) = ground (arith, count-drop_votes u v t xs)

pub count-drop_vote :
    (u t v s : ℕ) (vs : List Vote)
    → count_votes v s (drop_vote u t vs) ≡ (if v == u && s == t then 0 else count_votes v s vs)
unfolding drop_vote
count-drop_vote u t v s [] = ground arith
count-drop_vote u t v s (x ∷ xs) = ground (arith, count-drop_vote u t v s xs)

-- The members that `Vote` ensures are as the invariant needs them, with the old vote gone.
pub ensured-IsOrderly :
    (actor t : ℕ) (p : Party) (old : Option Role)
    → p.members actor ≡ old
    → p.enabled ≡ true
    → IsOrderly p
    → IsOrderly
        (record p { members = ensured actor old p.members; votes = drop_vote actor t p.votes })
ensured-IsOrderly actor t p none m on w = record {
  owned = w.owned;
  hosted = λ q. let (h, a, b) = w.hosted q in (h, a, ground arith);
  one_host = λ u q. ground (arith, w.one_host u);
  idle_host = w.idle_host;
  idle_members = λ u q. cc;
  voters = λ u s q. ground (arith, count-drop_vote actor t u s p.votes, w.voters u s);
  once = λ u s. ground (arith, count-drop_vote actor t u s p.votes, w.once u s);
}
ensured-IsOrderly actor t p (some r) m on w = record {
  owned = w.owned;
  hosted = w.hosted;
  one_host = w.one_host;
  idle_host = w.idle_host;
  idle_members = w.idle_members;
  voters = λ u s q. ground (arith, count-drop_vote actor t u s p.votes, w.voters u s);
  once = λ u s. ground (arith, count-drop_vote actor t u s p.votes, w.once u s);
}

pub ensured-member :
    (actor : ℕ) (old : Option Role) (ms : ℕ → Option Role)
    → ms actor ≡ old
    → (r : Role) × (ensured actor old ms actor ≡ some r)
ensured-member actor none ms e = (Role.guest, ground arith)
ensured-member actor (some r) ms e = (r, e)

-- One vote more, of a member who has no vote for the track.
pub counted-IsOrderly :
    (actor t : ℕ) (p : Party) (r : Role)
    → p.members actor ≡ some r
    → count_votes actor t p.votes ≡ 0
    → IsOrderly p
    → IsOrderly (record p { votes = record { user = actor; track = t } ∷ p.votes })
counted-IsOrderly actor t p r m c w = record {
  owned = w.owned;
  hosted = w.hosted;
  one_host = w.one_host;
  idle_host = w.idle_host;
  idle_members = w.idle_members;
  voters = λ u s q. ground (arith, w.voters u s);
  once = λ u s. ground (arith, w.once u s);
}

-- Another role for a guest or a DJ, or none.
pub changed-IsOrderly :
    (member : ℕ) (r : Role) (p : Party)
    → is_guest_or_dj (p.members member) ≡ true
    → is_guest_or_dj (some r) ≡ true
    → IsOrderly p
    → IsOrderly (record p { members = set_member member r p.members })
changed-IsOrderly member r p old new w = record {
  owned = w.owned;
  hosted = λ q. let (h, a, b) = w.hosted q in (h, a, ground arith);
  one_host = λ u q. ground (arith, w.one_host u);
  idle_host = w.idle_host;
  idle_members = λ u q. ground (arith, w.idle_members u, w.idle_members member);
  voters = λ u t q. ground (arith, w.voters u t);
  once = w.once;
}
