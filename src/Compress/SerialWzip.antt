-- ===== src/Compress/SerialWzip.antt =====
-- The serial wzip of assigned-project-concurrency/wzip.c. Its state is the file's globals `count`
-- and `current` and the bytes written; `fgetc` and `feof` walk the list of the file's bytes.
pub mod Encodes
use wpi_operating_systems.Base.{
  ℕ, ◌+◌, ◌%◌, ◌^◌, Option, none, some, List, [], ◌∷◌, ◌++◌, ◌==◌, if◌then◌else◌,
}
use wpi_operating_systems.Compress.Runs.{le4}
use wpi_operating_systems.Compress.Wzip.{Exit, cannot_open, usage}

pub record Rle : Type 0 where
  pub count : ℕ
  pub current : ℕ
  pub out : List ℕ

-- The two `fwrite` calls.
write_run : Rle → List ℕ
write_run s = s.out ++ (le4 s.count ++ (s.current ∷ []))

-- one round of the loop over a file
rle_char : Rle → ℕ → Rle
unfolding write_run
rle_char s c =
    if c == s.current
    then record s { count = (s.count + 1) % 2 ^ 32 }
    else record { count = 1; current = c; out = write_run s }

rle_loop : Rle → List ℕ → Rle
unfolding rle_char
rle_loop s [] = s
rle_loop s (c ∷ cs) = rle_loop (rle_char s c) cs

-- The first byte is taken in apart where no run is pending.
unfoldable pub rle : Rle → List ℕ → Rle
unfolding rle_loop
rle s [] = s
rle s (c ∷ cs) =
    if s.count == 0 then rle_loop (record s { current = c; count = 1 }) cs else rle_loop s (c ∷ cs)

rle_files : Rle → List (Option (List ℕ)) → Exit
unfolding rle write_run
rle_files s [] = record { stdout = write_run s; status = 0 }
rle_files s (none ∷ files) = record { stdout = s.out ++ cannot_open; status = 1 }
rle_files s (some cs ∷ files) = rle_files (rle s cs) files

-- Globals are zero at the start.
unfoldable pub main : List (Option (List ℕ)) → Exit
unfolding rle_files
main [] = record { stdout = usage; status = 1 }
main (f ∷ files) = rle_files (record { count = 0; current = 0; out = [] }) (f ∷ files)
