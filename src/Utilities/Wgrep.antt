-- ===== src/Utilities/Wgrep.antt =====
-- The utility wgrep of assigned_project_utilities/wgrep/wgrep.c. A file is its bytes, or `none` where
-- it cannot be opened. The search term is a string of the command line and has no zero byte; the text
-- of a file may have some, at which `strstr` and `fputs` stop. The size that
-- `getline` is given, which the code does not set, is not more than that of the buffer.
pub mod Selects
use wpi_operating_systems.Base.{
  ℕ, Bool, true, false, Option, none, some, List, [], ◌∷◌, ◌++◌, ◌&&◌, ◌||◌, ◌==◌, if◌then◌else◌,
}
use wpi_operating_systems.Compress.Runs.{codes}
use wpi_operating_systems.Compress.Wzip.{Exit}

abbrev pub cannot_open : List ℕ
cannot_open = codes "wgrep: cannot open file" ++ (10 ∷ [])

abbrev pub usage : List ℕ
usage = codes "wgrep: searchterm [file ...]" ++ (10 ∷ [])

-- A character in front of the lines of a text.
abbrev pub add_to_line : ℕ → List (List ℕ) → List (List ℕ)
add_to_line c [] = (c ∷ []) ∷ []
add_to_line c (l ∷ lines) = (c ∷ l) ∷ lines

-- What `getline` returns, call by call: each line with its newline, and what is behind the last one.
unfoldable pub get_lines : List ℕ → List (List ℕ)
get_lines [] = []
get_lines (c ∷ cs) =
    let rest = get_lines cs in if c == 10 then (c ∷ []) ∷ rest else add_to_line c rest

unfoldable pub starts_with : List ℕ → List ℕ → Bool
starts_with text [] = true
starts_with [] (d ∷ term) = false
starts_with (c ∷ text) (d ∷ term) = (c == d) && starts_with text term

-- The string that a buffer holds: the bytes before the first zero.
unfoldable pub c_string : List ℕ → List ℕ
c_string [] = []
c_string (c ∷ cs) = let rest = c_string cs in if c == 0 then [] else c ∷ rest

unfoldable pub find_text : List ℕ → List ℕ → Bool
find_text [] term = starts_with [] term
find_text (c ∷ text) term = starts_with (c ∷ text) term || find_text text term

-- `strstr(buffer, term) != NULL`
unfoldable pub strstr : List ℕ → List ℕ → Bool
unfolding find_text c_string
strstr buffer term = find_text (c_string buffer) term

-- the loop over the lines, behind what was printed
unfoldable pub print_lines : List ℕ → List ℕ → List (List ℕ) → List ℕ
print_lines search_term out [] = out
print_lines search_term out (buffer ∷ lines) =
    print_lines search_term (if strstr buffer search_term then out ++ c_string buffer else out)
      lines

unfoldable pub print_std_in : List ℕ → List ℕ → List ℕ
print_std_in search_term text = print_lines search_term [] (get_lines text)

-- the loop over the files
unfoldable pub print_files : List ℕ → List ℕ → List (Option (List ℕ)) → Exit
print_files search_term out [] = record { stdout = out; status = 0 }
print_files search_term out (none ∷ files) = record { stdout = out ++ cannot_open; status = 1 }
print_files search_term out (some text ∷ files) =
    print_files search_term (print_lines search_term out (get_lines text)) files

-- `main` by its arguments: none, the search term with the standard input, or with files.
unfoldable pub main : List ℕ → Option (List ℕ) → List (Option (List ℕ)) → Exit
main stdin none files = record { stdout = usage; status = 1 }
main stdin (some search_term) [] = record { stdout = print_std_in search_term stdin; status = 0 }
main stdin (some search_term) (f ∷ files) = print_files search_term [] (f ∷ files)
