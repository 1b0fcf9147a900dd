-- ===== src/Compress/Tests.antt =====
-- The compression programs on small texts, given by their bytes.
use wpi_operating_systems.Base.{ℕ, ◌≡◌, refl, none, some, List, [], ◌∷◌, ◌++◌, map, arith}
use wpi_operating_systems.Compress.Runs.{encode, runs, drop_last}
use wpi_operating_systems.Compress.Wzip
use wpi_operating_systems.Compress.Wzip.Encodes.{flatten, zip-encode-runs, zip-cannot_open}
use wpi_operating_systems.Compress.Wunzip
use wpi_operating_systems.Compress.Wunzip.RoundTrip.{main-zip}
use wpi_operating_systems.Compress.SerialWzip
use wpi_operating_systems.Compress.SerialWzip.Encodes.{main-encode-runs}
use wpi_operating_systems.Compress.Wpzip.{ThreadData, init_result}
use wpi_operating_systems.Compress.Wpzip
use wpi_operating_systems.Compress.Wpzip.Threads.{Holds}

abbrev first_file : List ℕ
first_file = 97 ∷ 97 ∷ 98 ∷ []

abbrev second_file : List ℕ
second_file = 98 ∷ 99 ∷ []

abbrev both : List (List ℕ)
both = first_file ∷ second_file ∷ []

-- The run of `b` crosses from one file to the other.
runs-both : runs (flatten both) ≡ (2, 97) ∷ (2, 98) ∷ (1, 99) ∷ []
unfolding runs
runs-both = refl

zip-encode-runs_example :
    Wzip.zip (map some both) ≡ record { stdout = encode (runs (flatten both)); status = 0 }
zip-encode-runs_example = zip-encode-runs both

zip-cannot_open_example :
    Wzip.zip (map some both ++ (none ∷ []))
    ≡ record { stdout = encode (drop_last (runs (flatten both))) ++ Wzip.cannot_open; status = 1 }
zip-cannot_open_example = zip-cannot_open both []

main-zip_example :
    Wunzip.main (some (Wzip.zip (map some both)).stdout ∷ [])
    ≡ record { stdout = flatten both; status = 0 }
main-zip_example = main-zip both (omega arith)

main-encode-runs_example :
    SerialWzip.main (map some both) ≡ record { stdout = encode (runs (flatten both)); status = 0 }
main-encode-runs_example = main-encode-runs first_file (second_file ∷ []) (λ e. cc) (omega arith)

abbrev part : ThreadData
part = record { start_offset = 1; end_offset = 3; file_data = first_file }

empty-Holds : Holds (init_result 1)
unfolding init_result
empty-Holds = record { fits = omega arith; some_room = omega arith }
