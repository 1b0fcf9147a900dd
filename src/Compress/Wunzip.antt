-- ===== src/Compress/Wunzip.antt =====
-- The utility wunzip of assigned_project_utilities/wunzip/wunzip.c. `rep_count` is an `int`: its
-- 32 bits are kept, and a negative one repeats nothing.
pub mod RoundTrip
use wpi_operating_systems.Base.{
  ℕ, suc, ◌+◌, ◌*◌, ◌%◌, ◌^◌, ◌≡◌, Bool, true, false, Option, none, some, List, [], ◌∷◌, ◌++◌, ltb,
  ◌==◌, if◌then◌else◌, arith, replicate, ℤ, pos, negsuc, to_int32,
}
use wpi_operating_systems.Compress.Runs.{codes}
use wpi_operating_systems.Compress.Wzip.{Exit}

pub record Unzip : Type 0 where
  pub counter : ℕ
  pub rep_count : ℕ

abbrev pub start : Unzip
start = record { counter = 0; rep_count = 0 }

abbrev pub cannot_open : List ℕ
cannot_open = codes "wunzip: cannot open file" ++ (10 ∷ [])

abbrev pub usage : List ℕ
usage = codes "wunzip: file1 [file2 ...]" ++ (10 ∷ [])

-- for (int i = 0; i < rep_count; i++) fputc(c, stdout);
repeat_char : ℕ → ℕ → List ℕ
repeat_char rep_count c = elim (to_int32 rep_count) [ pos n ↦ replicate n c | negsuc n ↦ [] ]

-- one byte of the file: the new state and what is written
unzip_char : Unzip → ℕ → Unzip × List ℕ
unfolding repeat_char
unzip_char u c =
    if ltb u.counter 4
    then (
      record {
        counter = u.counter + 1;
        rep_count = (u.rep_count + c * 2 ^ (u.counter * 8)) % 2 ^ 32;
      },
      [],
    )
    else (start, repeat_char u.rep_count c)

unzip_file : Unzip → List ℕ → List ℕ
unfolding unzip_char
unzip_file u [] = []
unzip_file u (c ∷ cs) = let (u', out) = unzip_char u c in out ++ unzip_file u' cs

unzip_files : List (Option (List ℕ)) → Exit
unfolding unzip_file
unzip_files [] = record { stdout = []; status = 0 }
unzip_files (none ∷ files) = record { stdout = cannot_open; status = 1 }
unzip_files (some cs ∷ files) =
    let rest = unzip_files files in record rest { stdout = unzip_file start cs ++ rest.stdout }

unfoldable pub main : List (Option (List ℕ)) → Exit
unfolding unzip_files
main [] = record { stdout = usage; status = 1 }
main (f ∷ files) = unzip_files (f ∷ files)
