-- ===== src/Compress/WpzipUnoptimized/Tests.antt =====
-- The earlier wpzip on small files.
use wpi_operating_systems.Base.{ℕ, ◌≡◌, refl, none, some, List, [], ◌∷◌, arith}
use wpi_operating_systems.Compress.WpzipUnoptimized.{
  largest_file, merge, merge_results, merge_entries, merge_entry, start_merge, add_entry,
  init_result, end_merge, main, init_threads,
}
use wpi_operating_systems.Compress.WpzipUnoptimized.Encodes.{main_small_files}

abbrev texts : List (List ℕ)
texts = (7 ∷ 7 ∷ 8 ∷ []) ∷ (8 ∷ []) ∷ []

main_small_files_example : main 0 4 2 ((7 ∷ []) ∷ []) ≡ none
main_small_files_example =
    main_small_files 0 4 2 (7 ∷ []) [] (omega arith) (unfold largest_file in omega arith)

-- A boundary inside a run.
merge_run :
    merge (
      record { entries = (1, 7) ∷ (2, 8) ∷ []; capacity = 4 }
      ∷ record { entries = (1, 8) ∷ []; capacity = 4 }
      ∷ [])
    ≡ some (record { entries = (1, 7) ∷ (3, 8) ∷ []; capacity = 3 })
unfolding merge merge_results merge_entries merge_entry start_merge add_entry init_result end_merge
merge_run = refl

-- More threads than bytes: all but the last one have no byte.
more_threads :
    init_threads (5 ∷ 6 ∷ []) 0 0 3
    ≡ record { start_offset = 0; end_offset = 0; file_data = 5 ∷ 6 ∷ [] }
      ∷ record { start_offset = 0; end_offset = 0; file_data = 5 ∷ 6 ∷ [] }
      ∷ record { start_offset = 0; end_offset = 2; file_data = 5 ∷ 6 ∷ [] }
      ∷ []
unfolding init_threads
more_threads = refl
