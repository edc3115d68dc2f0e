-- ===== src/Playback/Tests/Undos.antt =====
-- Undoing a removal on the session of the tests, and its payload.
use sound_dock.Base.{
  ℕ, ◌≡◌, refl, pos, false, some, String, [], ◌∷◌, contains, map, ok, arith, zero, suc, ap, ◌∙◌,
}
use sound_dock.Playback.Session.{Item, Dock}
use sound_dock.Playback.Queue.{tracks, delete_at, close_gap, track_at}
use sound_dock.Playback.Env.{Env}
use sound_dock.Playback.Extra.{trim, trim_left, trim_right, is_space, trim_cons}
use sound_dock.Playback.Extra.Json.{scaled}
use sound_dock.Playback.Cursor.{remove_at, settle_cursor}
use sound_dock.Playback.Undo.{restore_undo, load_row, parse_undo_items, undo_generation}
use sound_dock.Playback.Undo.RoundTrip.{undo_remove}
use sound_dock.Playback.Undo.Payload.{undo_request, undo_request-read}
use sound_dock.Playback.Tests.{world, row, dock, dock-WellFormed}

abbrev fewer : Dock
fewer = (remove_at world (pos 2) dock).0

id_free : contains (map (λ (x : Item). x.id) fewer.items) 3 ≡ false
unfolding remove_at delete_at close_gap settle_cursor track_at
id_free = refl

undo_remove_example :
    (d' : Dock) × (restore_undo world
        (some (pos fewer.session.revision))
        (load_row (row 3 2 13) ∷ [])
        fewer
      ≡ ok d')
    × (tracks d'.items ≡ 11 ∷ 12 ∷ 13 ∷ 14 ∷ [])
undo_remove_example =
    undo_remove world world 2 12 (row 3 2 13) dock fewer dock-WellFormed refl
      (λ e. omega (arith, e)) refl (λ e. omega (arith, e)) id_free
      (refl, (refl, (refl, (refl, tt)))) refl

-- UUIDs printed in unary, and read back.
abbrev show : ℕ → String
show zero = ""
show (suc n) = String.◌∷◌ "x" (show n)

abbrev count : String → ℕ
count String.[] = 0
count (String.◌∷◌ c s) = suc (count s)

abbrev reader : Env
reader = record world { parse = λ s. some (count s) }

trim_right-show : (n : ℕ) → trim_right (show n) ≡ show n
unfolding trim_right is_space
trim_right-show zero = refl
trim_right-show (suc n) = ap (trim_cons false "x") (trim_right-show n) ∙ trim_cons-show n
  where
    trim_cons-show : (m : ℕ) → trim_cons false "x" (show m) ≡ show (suc m)
    trim_cons-show m = refl

count-show : (n : ℕ) → count (show n) ≡ n
count-show zero = refl
count-show (suc n) = ap suc (count-show n)

shown : (u : ℕ) → reader.parse (trim (show u)) ≡ some u
unfolding trim trim_left is_space
shown zero = ap (λ s. some (count s)) (trim_right-show zero) ∙ ap some (count-show zero)
shown (suc n) = ap (λ s. some (count s)) (trim_right-show (suc n)) ∙ ap some (count-show (suc n))

undo_request-read_example :
    (parse_undo_items reader (undo_request scaled show 9 (load_row (row 3 2 13) ∷ []))
      ≡ load_row (row 3 2 13) ∷ [])
    × (undo_generation (undo_request scaled show 9 (load_row (row 3 2 13) ∷ [])) ≡ some (pos 9))
undo_request-read_example =
    undo_request-read reader scaled show 9 (load_row (row 3 2 13) ∷ []) shown (λ n small. refl)
      (omega arith, omega arith)
      (((λ e. omega (arith, e)), (omega arith, omega arith), refl, (λ u q e. cc), (λ s q. cc)), tt)
