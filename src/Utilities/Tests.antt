-- ===== src/Utilities/Tests.antt =====
-- wcat and wgrep on short texts. The characters: 97 `a`, 98 `b`, 10 a newline.
use wpi_operating_systems.Base.{ℕ, ◌≡◌, refl, none, some, List, [], ◌∷◌, ◌++◌}
use wpi_operating_systems.Utilities.Wcat
use wpi_operating_systems.Utilities.Wgrep
use wpi_operating_systems.Utilities.Wgrep.Selects.{Selects}

abbrev text : List ℕ
text = 97 ∷ 98 ∷ 10 ∷ 97 ∷ 10 ∷ 98 ∷ []

-- The last line has no newline.
grep_b :
    Wgrep.main text (some (98 ∷ [])) [] ≡ record { stdout = 97 ∷ 98 ∷ 10 ∷ 98 ∷ []; status = 0 }
unfolding Wgrep.main Wgrep.print_std_in Wgrep.print_lines Wgrep.get_lines Wgrep.strstr
    Wgrep.starts_with
grep_b = refl

-- A line with a zero byte: what is behind it is neither searched nor printed.
grep_zero :
    Wgrep.main (97 ∷ 0 ∷ 98 ∷ 10 ∷ []) (some (98 ∷ [])) [] ≡ record { stdout = []; status = 0 }
unfolding Wgrep.main Wgrep.print_std_in Wgrep.print_lines Wgrep.get_lines Wgrep.strstr
    Wgrep.starts_with
grep_zero = refl

-- A file that does not open ends wcat.
cat_missing :
    Wcat.main (some text ∷ none ∷ some text ∷ [])
    ≡ record { stdout = text ++ Wcat.cannot_open; status = 1 }
unfolding Wcat.main Wcat.print_files Wcat.print_bytes
cat_missing = refl
