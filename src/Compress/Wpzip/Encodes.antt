-- ===== src/Compress/Wpzip/Encodes.antt =====
-- wpzip writes the runs of its files, as the serial programs do.
use mathlib.Core.Option
use wpi_operating_systems.Base.{ℕ, ◌≡◌, Option, List, [], ◌++◌}
use wpi_operating_systems.Compress.Runs.{runs}
use wpi_operating_systems.Compress.Wpzip.{ThreadData}
use wpi_operating_systems.Compress.Wpzip.Merge.{glue_all, AllFresh}
use wpi_operating_systems.Compress.Wpzip.Parts.{results}

-- A part list that adds the bytes `cs` behind `before`.
abbrev Adds : ℕ → List ℕ → List ℕ → List ThreadData → Type 0
Adds junk before cs ds =
    (glue_all (runs before) (results junk ds) ≡ runs (before ++ cs)) × AllFresh (results junk ds)

abbrev no_bytes : ThreadData
no_bytes = record { start_offset = 0; end_offset = 0; file_data = [] }
