-- ===== src/Utilities/Wcat.antt =====
-- The utility wcat of assigned_project_utilities/wcat/wcat.c. A file is its bytes, or `none` where it
-- cannot be opened.
use wpi_operating_systems.Base.{Option, none, some, List, [], ◌∷◌, ◌++◌, ℕ}
use wpi_operating_systems.Compress.Runs.{codes}
use wpi_operating_systems.Compress.Wzip.{Exit}

abbrev pub cannot_open : List ℕ
cannot_open = codes "wcat: cannot open file" ++ (10 ∷ [])

-- the loop over the bytes of a file, behind what was printed
unfoldable pub print_bytes : List ℕ → List ℕ → List ℕ
print_bytes out [] = out
print_bytes out (c ∷ cs) = print_bytes (out ++ (c ∷ [])) cs

-- the loop over the files
unfoldable pub print_files : List ℕ → List (Option (List ℕ)) → Exit
print_files out [] = record { stdout = out; status = 0 }
print_files out (none ∷ files) = record { stdout = out ++ cannot_open; status = 1 }
print_files out (some cs ∷ files) = print_files (print_bytes out cs) files

unfoldable pub main : List (Option (List ℕ)) → Exit
main files = print_files [] files
