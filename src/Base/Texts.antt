-- ===== src/Base/Texts.antt =====
-- Go's package strings, as far as the code calls it: `TrimSpace`, and `ToLower` for texts that are
-- then compared with ASCII words.
use Prim.Native.Nat.{ℕ, ◌+◌}
use Prim.Native.String.{String, [], ◌∷◌}
use Prim.Native.Char.{Char, code}
use text.Mathlib.Text.{◌==◌ as str_eq}
use mathlib.Core.List.{List, [], ◌∷◌}
use mathlib.Core.Bool.{Bool, true, false, ◌&&◌, ◌||◌}
use sound_dock.Base.Tests.{leb, ◌==◌, if◌then◌else◌}

-- `unicode.IsSpace`.
abbrev pub is_space : ℕ → Bool
is_space n =
    (leb 9 n && leb n 13)
    || n == 32
    || n == 133
    || n == 160
    || n == 5760
    || (leb 8192 n && leb n 8202)
    || n == 8232
    || n == 8233
    || n == 8239
    || n == 8287
    || n == 12288

abbrev pub trim_start : String → String
trim_start [] = []
trim_start (c ∷ s) = let rest = trim_start s in if is_space (code c) then rest else c ∷ s

abbrev end_with : Char → String → String
end_with c [] = if is_space (code c) then [] else c ∷ []
end_with c (d ∷ s) = c ∷ d ∷ s

abbrev pub trim_end : String → String
trim_end [] = []
trim_end (c ∷ s) = end_with c (trim_end s)

-- `strings.TrimSpace`.
abbrev pub trim_space : String → String
trim_space s = trim_start (trim_end s)

-- `unicode.ToLower` of a letter whose lower case is in ASCII (İ and the Kelvin sign are such letters).
abbrev pub lower_code : ℕ → ℕ
lower_code n =
    if leb 65 n && leb n 90
    then n + 32
    else (if n == 304 then 105 else (if n == 8490 then 107 else n))

-- `strings.ToLower(s) == word`, for a word in ASCII.
abbrev pub lowers_to : String → String → Bool
lowers_to [] [] = true
lowers_to [] (d ∷ word) = false
lowers_to (c ∷ s) [] = false
lowers_to (c ∷ s) (d ∷ word) = lower_code (code c) == code d && lowers_to s word

-- The text is one of these words.
abbrev pub one_of : List String → String → Bool
one_of [] s = false
one_of (word ∷ words) s = str_eq s word || one_of words s

abbrev pub lowers_to_one_of : List String → String → Bool
lowers_to_one_of [] s = false
lowers_to_one_of (word ∷ words) s = lowers_to s word || lowers_to_one_of words s
