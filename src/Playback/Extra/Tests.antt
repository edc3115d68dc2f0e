-- ===== src/Playback/Extra/Tests.antt =====
-- Reading requests, as internal/playback/extra.go reads them.
use sound_dock.Base.{◌≡◌, refl, negsuc, true, none, some, [], ◌∷◌}
use sound_dock.Playback.Extra.{
  number, text, list, uuid, cons, nil, end, field, get, extra_int, extra_bool, extra_uuids,
  bool_of_text, atoi, all_digits, digits, is_digit, positive, negative, values_uuids, value_uuid,
  trim, trim_left, trim_right, is_space,
}

reads_negative : extra_int "a" (field "a" (text "-12") end) ≡ some (negsuc 11)
unfolding extra_int get atoi all_digits digits is_digit negative
reads_negative = refl

refuses_a_letter : extra_int "a" (field "a" (text "1x") end) ≡ none
unfolding extra_int get atoi all_digits digits is_digit positive
refuses_a_letter = refl

refuses_overflow : extra_int "a" (field "a" (number "9223372036854775808") end) ≡ none
unfolding extra_int get atoi all_digits digits is_digit positive
refuses_overflow = refl

reads_least :
    extra_int "a" (field "a" (number "-9223372036854775808") end)
    ≡ some (negsuc 9223372036854775807)
unfolding extra_int get atoi all_digits digits is_digit negative
reads_least = refl

reads_true : extra_bool "b" (field "b" (text "true") end) ≡ some true
unfolding extra_bool get bool_of_text
reads_true = refl

skips_unreadable :
    extra_uuids (λ s. none) "t" (field "t" (list (cons (text "?") (cons (uuid 4) nil))) end)
    ≡ 4 ∷ []
unfolding extra_uuids get values_uuids value_uuid
skips_unreadable = refl

trims : trim " k 1 " ≡ "k 1"
unfolding trim trim_left trim_right is_space
trims = refl
