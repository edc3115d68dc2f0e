-- ===== src/Playback/Party/Members.antt =====
-- Who is in a party and who votes, over any sequence of requests (internal/playback/party.go and
-- party_perms.go).
use sound_dock.Base.{ℕ, ℤ, Bool, false, Option, none, String, []}
use sound_dock.Playback.Party.{
  Party, PartyPermissions, enable_party, disable_party, leave_party, join_party, cast_vote,
  expire_party, set_permissions, set_member_role, remove_member, default_permissions,
}

-- A session before its first party.
abbrev pub fresh : Option ℕ → Party
fresh owner = record {
  owner = owner;
  enabled = false;
  host = none;
  expires_at = none;
  permissions = default_permissions;
  members = λ u. none;
  votes = [];
}

-- The request that changes a party, each at its own time.
pub data Step (known : ℕ → Bool) (p : Party) : Party → Type 0 where
  enable : (now user : ℕ) (lasts : ℤ) → Step known p (enable_party now user lasts p).0
  disable : (actor : ℕ) → Step known p (disable_party actor p).0
  leave : (actor : ℕ) → Step known p (leave_party actor p).0
  join : (now actor : ℕ) → Step known p (join_party now actor p).0
  vote : (now actor t : ℕ) → Step known p (cast_vote known now actor t p).0
  expire : (now : ℕ) → Step known p (expire_party now p).0
  permit :
      (now actor : ℕ) (perms : PartyPermissions)
      → Step known p (set_permissions now actor perms p).0
  promote :
      (now actor member : ℕ) (role : String)
      → Step known p (set_member_role now actor member role p).0
  remove : (now actor member : ℕ) → Step known p (remove_member now actor member p).0

pub data Reachable (known : ℕ → Bool) : Party → Type 0 where
  start : (owner : Option ℕ) → Reachable known (fresh owner)
  then_step : {p q : Party} → Reachable known p → Step known p q → Reachable known q
