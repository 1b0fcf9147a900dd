-- ===== src/Compress/WpzipUnoptimized/Encodes.antt =====
-- The output of the earlier wpzip: what the serial programs write, unless the largest file holds one
-- byte or none.
use wpi_operating_systems.Base.{
  ℕ, ◌/◌, ◌≤◌, ◌<◌, ◌≡◌, refl, ◌∙◌, ap, Option, none, some, List, [], ◌∷◌, arith, length,
}
use wpi_operating_systems.Compress.Chunks.{chunks_fit}
use wpi_operating_systems.Compress.WpzipUnoptimized.{
  Result, init_result, add_entry, thread_rle, scan_loop, scan_start, scan_end, read_first, merge,
  write_results, init_threads, run_threads, per_file, all_files, largest_file, limit_threads, main,
}

-- the end of `main`
abbrev finished : Option (List Result) → Option (List ℕ)
finished none = none
finished (some results) = elim (merge results) [ none ↦ none | some r ↦ some (write_results r) ]

abbrev threads_of : ℕ → ℕ → List (List ℕ) → ℕ
threads_of processors num_threads files = limit_threads processors num_threads (largest_file files)

abbrev room_of : ℕ → ℕ → List (List ℕ) → ℕ
room_of processors num_threads files =
    largest_file files / threads_of processors num_threads files / 2

main-finished :
    (junk processors num_threads : ℕ) (files : List (List ℕ))
    → main junk processors num_threads files
      ≡ finished (
          all_files junk
            (room_of processors num_threads files)
            (threads_of processors num_threads files)
            files)
unfolding main
main-finished junk processors num_threads files = go (
    all_files junk (room_of processors num_threads files) (threads_of processors num_threads files)
      files)
  where
    go :
        (o : Option (List Result))
        → (elim o [
          | none ↦ none
          | some results ↦ elim (merge results) [ none ↦ none | some r ↦ some (write_results r) ]
        ])
          ≡ finished o
    go none = refl
    go (some results) = refl

-- A thread on one byte or none, with arrays of no entry.
no_room : (junk : ℕ) (cs : List ℕ) → length cs ≤ 1 → per_file junk 0 1 cs ≡ none
unfolding per_file run_threads init_threads thread_rle scan_loop scan_start scan_end read_first
    init_result add_entry chunks_fit
no_room junk [] h = refl
no_room junk (c ∷ []) h = refl
no_room junk (c ∷ d ∷ cs) h = absurd (omega arith)

-- If no file holds more than one byte, the arrays of the earlier wpzip have no entry, and it reads or
-- writes outside of them.
pub main_small_files :
    (junk processors num_threads : ℕ) (cs : List ℕ) (files : List (List ℕ))
    → 0 < processors
    → largest_file (cs ∷ files) ≤ 1
    → main junk processors num_threads (cs ∷ files) ≡ none
unfolding all_files
main_small_files junk processors num_threads cs files some_processor small =
    let one : threads_of processors num_threads (cs ∷ files) ≡ 1 =
      limit_one (largest_file (cs ∷ files)) small in
    let room : room_of processors num_threads (cs ∷ files) ≡ 0 =
      ap (λ n. largest_file (cs ∷ files) / n / 2) one ∙ omega arith in
    let first : length cs ≤ 1 = unfold largest_file in omega arith in
    let outside : all_files junk 0 1 (cs ∷ files) ≡ none = rw (all_files, no_room junk cs first) in
    main-finished junk processors num_threads (cs ∷ files)
    ∙ ap finished (
        ap (λ n. all_files junk n (threads_of processors num_threads (cs ∷ files)) (cs ∷ files))
          room
        ∙ ap (λ n. all_files junk 0 n (cs ∷ files)) one
        ∙ outside)
  where
    limit_one : (largest : ℕ) → largest ≤ 1 → limit_threads processors num_threads largest ≡ 1
    limit_one largest h = unfold limit_threads in ground arith
