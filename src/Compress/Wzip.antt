-- ===== src/Compress/Wzip.antt =====
-- The utility wzip of assigned_project_utilities/wzip/wzip.c. A file is its bytes, or `none` where
-- it cannot be opened. `prevChar == -1` is `none`. A run is shorter than 2 ^ 31 bytes, since
-- `count` is an `int`.
pub mod Encodes
use wpi_operating_systems.Base.{
  ℕ, ◌+◌, ◌≡◌, Bool, true, false, Option, none, some, List, [], ◌∷◌, ◌++◌, ◌==◌, if◌then◌else◌,
  arith,
}
use wpi_operating_systems.Compress.Runs.{le4, codes}

pub record Zip : Type 0 where
  pub prev_char : Option ℕ
  pub count : ℕ
  pub out : List ℕ

-- What a command leaves: the bytes on its standard output and its exit status.
pub record Exit : Type 0 where
  pub stdout : List ℕ
  pub status : ℕ

abbrev pub cannot_open : List ℕ
cannot_open = codes "wzip: cannot open file" ++ (10 ∷ [])

abbrev pub usage : List ℕ
usage = codes "wzip: file1 [file2 ...]" ++ (10 ∷ [])

output_current : ℕ → ℕ → List ℕ
output_current count current_char = le4 count ++ (current_char ∷ [])

-- the output of the pending run
flush : Zip → List ℕ
unfolding output_current
flush z = elim z.prev_char [ none ↦ z.out | some p ↦ z.out ++ output_current z.count p ]

-- one round of the loop over a file
zip_char : Zip → ℕ → Zip
unfolding flush
zip_char z c =
    let same : Bool = elim z.prev_char [ none ↦ false | some p ↦ c == p ] in
    if same
    then record z { count = z.count + 1 }
    else record { prev_char = some c; count = 1; out = flush z }

zip_file : Zip → List ℕ → Zip
unfolding zip_char
zip_file z [] = z
zip_file z (c ∷ cs) = zip_file (zip_char z c) cs

-- The loop over the files and the last output.
zip_from : Zip → List (Option (List ℕ)) → Exit
unfolding zip_file flush
zip_from z [] = record { stdout = flush z; status = 0 }
zip_from z (none ∷ files) = record { stdout = z.out ++ cannot_open; status = 1 }
zip_from z (some cs ∷ files) = zip_from (zip_file z cs) files

unfoldable pub zip : List (Option (List ℕ)) → Exit
unfolding zip_from
zip files = zip_from (record { prev_char = none; count = 0; out = [] }) files

unfoldable pub main : List (Option (List ℕ)) → Exit
unfolding zip
main [] = record { stdout = usage; status = 1 }
main (f ∷ files) = zip (f ∷ files)
