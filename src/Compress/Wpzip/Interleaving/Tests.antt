-- ===== src/Compress/Wpzip/Interleaving/Tests.antt =====
-- One file of one byte, with one thread for it.
use wpi_operating_systems.Base.{ℕ, ◌≡◌, refl, List, [], ◌∷◌, arith}
use wpi_operating_systems.Compress.Wpzip.{
  ThreadData, scan_start, scan_end, new_result, all_threads, file_threads, finish, wpzip,
}
use wpi_operating_systems.Compress.Wpzip.Interleaving.{
  scanning, counted, System, thread, start_system, Step, create, count, Reach, start, later,
}
use wpi_operating_systems.Compress.Wpzip.Interleaving.Balance.{
  sum_of, active, IsBalanced, Reach-IsBalanced,
}
use wpi_operating_systems.Compress.Wpzip.Interleaving.Outcome.{results_of, finish-results_of}
use wpi_operating_systems.Compress.Wpzip.Interleaving.Progress.{Reach-progress, Reach_early}

abbrev files : List (List ℕ)
files = (97 ∷ []) ∷ []

abbrev part : ThreadData
part = record { start_offset = 0; end_offset = 1; file_data = 97 ∷ [] }

one_part : all_threads 1 files ≡ part ∷ []
unfolding file_threads
one_part = refl

abbrev begun : System
begun = record {
  thread_s = 0;
  threads_done = 0;
  thread_index = 1;
  threads = thread part (scanning 0 (scan_start 0 part new_result)) ∷ [];
}

abbrev ended : System
ended = record begun {
  threads_done = 1;
  threads = thread part (counted (scan_end 0 part (scan_start 0 part new_result))) ∷ [];
}

begins : Step 0 (start_system 1 (part ∷ [])) begun
begins = create [] part [] refl refl (omega arith)

ends : Step 0 begun ended
ends = count [] part (scan_start 0 part new_result) [] refl

reach : Reach 0 1 (all_threads 1 files) ended
unfolding file_threads
reach = later (later start begins) ends

finish-results_of_example : finish (results_of ended.threads) ≡ wpzip 0 1 files
unfolding file_threads
finish-results_of_example = finish-results_of 0 1 1 files ended reach refl

Reach-IsBalanced_example : IsBalanced 1 (all_threads 1 files) ended
Reach-IsBalanced_example = Reach-IsBalanced 0 1 (all_threads 1 files) reach

Reach-progress_example : (t : System) × Step 0 (start_system 1 (part ∷ [])) t
Reach-progress_example =
    Reach-progress 0 1 (part ∷ []) (start_system 1 (part ∷ [])) (omega arith) start (omega arith)

Reach_early_example :
    (s : System) × Reach 0 1 (part ∷ []) s × (s.threads_done ≡ 1) × (sum_of active s.threads ≡ 1)
Reach_early_example = Reach_early 0 1 part (omega arith)
