-- ===== src/Playback/Party.antt =====
-- internal/playback/party.go and party_perms.go: the listening party of one session. The rows of
-- party_members are a map from users to roles, their primary key; the rows of party_votes are a
-- list. A time is a number of nanoseconds. The users exist; `known` says which tracks do.
pub mod Order
pub mod Members
pub mod Rights
use sound_dock.Base.{
  ℕ, zero, suc, ◌+◌, ◌*◌, ℤ, pos, negsuc, Bool, true, false, not, ◌&&◌, ◌||◌, Option, none, some,
  String, str_eq, List, [], ◌∷◌, leb, ◌==◌, if◌then◌else◌, keep, holds, ok, err,
}
use sound_dock.Playback.Session.{
  Try, Error, forbidden, party_inactive, party_forbidden, join_first, not_host, bad_role,
  member_not_found, foreign_key,
}

pub data Role : Type 0 where
  guest dj host : Role

pub record PartyPermissions : Type 0 where
  pub add : Bool
  pub vote : Bool
  pub skip : Bool
  pub pause : Bool

pub record Vote : Type 0 where
  pub user : ℕ
  pub track : ℕ

-- The party columns of playback_sessions, whose `user_id` is the owner, and the two tables.
pub record Party : Type 0 where
  pub owner : Option ℕ
  pub enabled : Bool
  pub host : Option ℕ
  pub expires_at : Option ℕ
  pub permissions : PartyPermissions
  pub members : ℕ → Option Role
  pub votes : List Vote

-- What a request leaves, and its answer. Most run several statements without a transaction.
abbrev pub Done : Type 0
Done = Party × Try (Unit {0})

-- `DefaultPartyPermissions`.
abbrev pub default_permissions : PartyPermissions
default_permissions = record { add = true; vote = true; skip = false; pause = false }

abbrev pub not_over : Option ℕ → ℕ → Bool
not_over none now = true
not_over (some at) now = not (leb at now)

-- `partyActive`.
unfoldable pub party_active : Bool → Option ℕ → ℕ → Bool
party_active enabled expires now = enabled && not_over expires now

abbrev pub is_active : ℕ → Party → Bool
is_active now p = party_active p.enabled p.expires_at now

abbrev pub set_member : ℕ → Role → (ℕ → Option Role) → ℕ → Option Role
set_member u r ms v = if v == u then some r else ms v

abbrev pub unset_member : ℕ → (ℕ → Option Role) → ℕ → Option Role
unset_member u ms v = if v == u then none else ms v

-- `DELETE FROM party_votes WHERE user_id=u`.
unfoldable pub drop_votes : ℕ → List Vote → List Vote
drop_votes u = keep λ v. not (v.user == u)

-- The same of one track.
unfoldable pub drop_vote : ℕ → ℕ → List Vote → List Vote
drop_vote u t = keep λ v. not (v.user == u && v.track == t)

-- `clearParty`.
abbrev pub clear_party : Party → Party
clear_party p = record p { enabled = false; host = none; members = λ u. none; votes = [] }

abbrev pub hour : ℕ
hour = 3600 * 1000000000

abbrev pub lasting : ℤ → ℕ
lasting (pos zero) = hour
lasting (pos (suc n)) = suc n
lasting (negsuc n) = hour

-- `EnableParty`, with the time of its end.
unfoldable pub enable_party : ℕ → ℕ → ℤ → Party → Party × Try ℕ
enable_party now user expires_in p =
    if not (holds p.owner user)
    then (p, err forbidden)
    else (let at = now + lasting expires_in in
        (
          record p {
            enabled = true;
            expires_at = some at;
            host = some user;
            votes = [];
            members = set_member user Role.host p.members;
          },
          ok at,
        ))

-- `DisableParty`.
pub disable_party : ℕ → Party → Done
disable_party actor p =
    if not (holds p.host actor) then (p, err forbidden) else (clear_party p, ok tt)

-- `LeaveParty`.
pub leave_party : ℕ → Party → Done
unfolding drop_votes
leave_party actor p = if holds p.host actor then (clear_party p, ok tt) else (
  record p { members = unset_member actor p.members; votes = drop_votes actor p.votes },
  ok tt,
)

-- The role of `ON CONFLICT … DO UPDATE SET role=CASE …`.
abbrev pub joined_role : Bool → Option Role → Role
joined_role true old = Role.host
joined_role false none = Role.guest
joined_role false (some r) = r

-- `JoinParty`.
unfoldable pub join_party : ℕ → ℕ → Party → Done
join_party now actor p = if not (is_active now p) then (p, err party_inactive) else (
  record p {
    members = set_member actor (joined_role (holds p.host actor) (p.members actor)) p.members;
  },
  ok tt,
)

abbrev pub ensured : ℕ → Option Role → (ℕ → Option Role) → ℕ → Option Role
ensured u none ms = set_member u Role.guest ms
ensured u (some r) ms = ms

-- `Vote`: an unknown track is refused after the member is in.
unfoldable pub cast_vote : (ℕ → Bool) → ℕ → ℕ → ℕ → Party → Done
unfolding drop_vote
cast_vote known now actor t p =
    if not (is_active now p)
    then (p, err party_inactive)
    else (let q = record p {
      members = ensured actor (p.members actor) p.members;
      votes = drop_vote actor t p.votes;
    } in
        if known t
        then (record q { votes = record { user = actor; track = t } ∷ q.votes }, ok tt)
        else (q, err foreign_key))

-- `ExpireParty`.
pub expire_party : ℕ → Party → Done
expire_party now p = if is_active now p then (p, ok tt) else (clear_party p, ok tt)

-- `isPartyHost`.
abbrev pub is_party_host : ℕ → ℕ → Party → Bool
is_party_host now actor p = holds p.host actor && is_active now p

-- `SetPartyPermissions`.
pub set_permissions : ℕ → ℕ → PartyPermissions → Party → Done
set_permissions now actor perms p =
    if not (is_party_host now actor p)
    then (p, err not_host)
    else (record p { permissions = perms }, ok tt)

abbrev pub role_named : String → Option Role
role_named s =
    if str_eq s "guest" then some Role.guest else (if str_eq s "dj" then some Role.dj else none)

abbrev pub is_guest_or_dj : Option Role → Bool
is_guest_or_dj none = false
is_guest_or_dj (some Role.host) = false
is_guest_or_dj (some Role.guest) = true
is_guest_or_dj (some Role.dj) = true

abbrev pub with_role : ℕ → Option Role → Party → Done
with_role member none p = (p, err bad_role)
with_role member (some r) p =
    if is_guest_or_dj (p.members member)
    then (record p { members = set_member member r p.members }, ok tt)
    else (p, err member_not_found)

-- `SetPartyMemberRole`.
pub set_member_role : ℕ → ℕ → ℕ → String → Party → Done
set_member_role now actor member role p =
    if not (is_party_host now actor p)
    then (p, err not_host)
    else with_role member (role_named role) p

-- `RemovePartyMember`.
unfoldable pub remove_member : ℕ → ℕ → ℕ → Party → Done
unfolding drop_votes
remove_member now actor member p = if not (is_party_host now actor p) then (p, err not_host) else (
  record p {
    members =
        if is_guest_or_dj (p.members member) then unset_member member p.members else p.members;
    votes = drop_votes member p.votes;
  },
  ok tt,
)

-- The map of `PartyAllowed`.
abbrev pub allowed_to_guests : String → PartyPermissions → Bool
allowed_to_guests action perms =
    if str_eq action "add"
    then perms.add
    else (if str_eq action "vote"
        then perms.vote
        else (if str_eq action "skip"
            then perms.skip
            else (if str_eq action "pause" then perms.pause else false)))

abbrev pub allowed_as : Option Role → String → PartyPermissions → Try (Unit {0})
allowed_as none action perms = err join_first
allowed_as (some Role.host) action perms = ok tt
allowed_as (some Role.dj) action perms = ok tt
allowed_as (some Role.guest) action perms =
    if allowed_to_guests action perms then ok tt else err party_forbidden

-- `PartyAllowed`.
pub party_allowed : ℕ → ℕ → String → Party → Try (Unit {0})
party_allowed now actor action p =
    if not (is_active now p)
    then err party_inactive
    else (if holds p.host actor then ok tt else allowed_as (p.members actor) action p.permissions)
