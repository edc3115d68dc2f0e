-- ===== src/Playback/Tests/Parties.antt =====
-- A party with a host and a guest.
use mathlib.Core.Logic.{◌↔◌}
use sound_dock.Base.{ℕ, ◌≡◌, refl, ◌≢◌, pos, Bool, true, some, ok}
use sound_dock.Playback.Party.{
  Party, Role, enable_party, join_party, cast_vote, remove_member, party_allowed, party_active,
}
use sound_dock.Playback.Party.Members.{fresh}
use sound_dock.Playback.Party.Rights.{IsOn, MayAct, party_allowed_iff}

abbrev known : ℕ → Bool
known t = true

-- User 5 opens the party, user 6 joins and votes.
abbrev opened : Party
opened = (enable_party 10 5 (pos 100) (fresh (some 5))).0

abbrev joined : Party
joined = (join_party 20 6 opened).0

abbrev voted : Party
voted = (cast_vote known 30 6 11 joined).0

party_allowed_iff_example :
    (party_allowed 40 6 "add" voted ≡ ok tt) ↔ (IsOn 40 voted × MayAct 6 "add" voted)
party_allowed_iff_example = party_allowed_iff 40 6 "add" voted

hosted : voted.host ≡ some 5
unfolding enable_party join_party cast_vote party_active
hosted = refl

abbrev thrown : Party
thrown = (remove_member 45 5 6 voted).0

is_guest : voted.members 6 ≢ some Role.host
unfolding enable_party join_party cast_vote party_active
is_guest e = cc

removes : remove_member 45 5 6 voted ≡ (thrown, ok tt)
unfolding enable_party join_party cast_vote party_active remove_member
removes = refl
