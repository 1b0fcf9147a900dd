-- ===== src/Compress/WpzipUnoptimized.antt =====
-- The earlier threaded wpzip, assigned-project-concurrency/wpzip_unoptimized.c: every file is cut
-- into one part for each thread, and the results of all parts are merged into one.
-- The arrays `counts` and `chars` are one list of pairs; `none` is an access outside of them or of a
-- file's buffer, or an `int` that overflows. Files open and are read whole, and their runs are shorter
-- than 2 ^ 31 bytes; `junk` is what a read behind the end of the file's buffer gives. The number of
-- threads is not negative, threads are created, and the stack has room for the arrays of threads and
-- of results. The fields `first_char`, `first_count`, `last_char` and `last_count` of a thread are set
-- and never read, and are left out.
pub mod Joins
pub mod Threads
pub mod Parts
pub mod Encodes
mod Tests
use Prim.Native.Nat.{max}
use wpi_operating_systems.Base.{
  ℕ, zero, suc, ◌+◌, ◌-◌, ◌*◌, ◌/◌, min, Bool, true, false, Option, none, some, List, [], ◌∷◌, ◌++◌,
  ◌&&◌, ltb, ◌==◌, not, if◌then◌else◌, length, get_or,
}
use wpi_operating_systems.Compress.Runs.{Entry, encode}
use wpi_operating_systems.Compress.Chunks.{chunks_fit}

-- `Result`
pub record Result : Type 0 where
  pub entries : List Entry
  pub capacity : ℕ

unfoldable pub init_result : ℕ → Result
init_result initial_capacity = record { entries = []; capacity = initial_capacity }

-- The arrays are doubled when they are full; arrays of no entry stay so.
unfoldable pub add_entry : Result → ℕ → ℕ → Option Result
add_entry r count c =
    let capacity = if length r.entries == r.capacity then r.capacity * 2 else r.capacity in
    if ltb (length r.entries) capacity
    then some (record { entries = r.entries ++ ((count, c) ∷ []); capacity = capacity })
    else none

-- `ThreadData`
pub record ThreadData : Type 0 where
  pub start_offset : ℕ
  pub end_offset : ℕ
  pub file_data : List ℕ

-- The variables of `thread_rle` in its loop.
pub record Scan : Type 0 where
  pub pos : ℕ
  pub count : ℕ
  pub current : ℕ
  pub result : Result

-- the read of `chars[0]` and `counts[0]`
unfoldable pub read_first : Result → Option Result
read_first r = if r.capacity == 0 then none else some r

module _ (junk : ℕ) where
  -- `c = file_data[start]` before the loop
  unfoldable pub scan_start : ThreadData → Result → Scan
  scan_start d r = record {
    pos = d.start_offset + 1;
    count = 1;
    current = get_or d.file_data d.start_offset junk;
    result = r;
  }

  -- one round of the loop
  unfoldable pub scan_step : ThreadData → Scan → Option Scan
  scan_step d s =
      let c = get_or d.file_data s.pos junk in
      if c == s.current
      then some (record s { pos = s.pos + 1; count = s.count + 1 })
      else elim (add_entry s.result s.count s.current) [
        | none ↦ none
        | some r ↦ some (record { pos = s.pos + 1; count = 1; current = c; result = r })
      ]

  unfoldable pub scan_loop : ℕ → ThreadData → Scan → Option Scan
  scan_loop zero d s = some s
  scan_loop (suc rounds) d s = elim (scan_step d s) [ none ↦ none | some t ↦ scan_loop rounds d t ]

  -- the last entry
  unfoldable pub scan_end : ThreadData → Scan → Option Result
  scan_end d s =
      if ltb 0 s.count && (s.pos == d.end_offset)
      then add_entry s.result s.count s.current
      else some s.result

  -- The loop runs while `start < end`, and each round adds one to `start`.
  unfoldable pub thread_rle : ThreadData → Result → Option Result
  thread_rle d r = elim (scan_loop (d.end_offset - (d.start_offset + 1)) d (scan_start d r)) [
    | none ↦ none
    | some s ↦ elim (scan_end d s) [ none ↦ none | some t ↦ read_first t ]
  ]

-- The variables of `merge`.
pub record Merging : Type 0 where
  pub first : Bool
  pub last_char : ℕ
  pub last_count : ℕ
  pub merged : Result

unfoldable pub merge_entry : Merging → Entry → Option Merging
merge_entry m (count, c) =
    if m.first
    then some (record m { first = false; last_char = c; last_count = count })
    else (if c == m.last_char
        then some (record m { last_count = m.last_count + count })
        else elim (add_entry m.merged m.last_count m.last_char) [
          | none ↦ none
          | some r ↦ some (record { first = false; last_char = c; last_count = count; merged = r })
        ])

-- the inner loop of `merge`
unfoldable pub merge_entries : Merging → List Entry → Option Merging
merge_entries m [] = some m
merge_entries m (e ∷ es) = elim (merge_entry m e) [ none ↦ none | some n ↦ merge_entries n es ]

-- the outer loop of `merge`
unfoldable pub merge_results : Merging → List Result → Option Merging
merge_results m [] = some m
merge_results m (r ∷ rs) = elim (merge_entries m r.entries) [
  | none ↦ none
  | some n ↦ merge_results n rs
]

abbrev pub estimated_total : List Result → ℕ
estimated_total [] = 0
estimated_total (r ∷ rs) = length r.entries + estimated_total rs

unfoldable pub start_merge : ℕ → Merging
start_merge total = record {
  first = true;
  last_char = 0;
  last_count = 0;
  merged = init_result total;
}

-- the final accumulated entry
unfoldable pub end_merge : Merging → Option Result
end_merge m = if m.first then some m.merged else add_entry m.merged m.last_count m.last_char

unfoldable pub merge : List Result → Option Result
merge results = elim (merge_results (start_merge (estimated_total results)) results) [
  | none ↦ none
  | some m ↦ end_merge m
]

unfoldable pub write_results : Result → List ℕ
write_results r = encode r.entries

-- The data of the threads `i`, `i + 1`, … of a file, `n` of them, the last one of the file's.
unfoldable pub init_threads : List ℕ → ℕ → ℕ → ℕ → List ThreadData
init_threads cs chunk i zero = []
init_threads cs chunk i (suc n) =
    record {
      start_offset = chunk * i;
      end_offset = if not (n == 0) then chunk * (i + 1) else length cs;
      file_data = cs;
    }
    ∷ init_threads cs chunk (i + 1) n

-- The threads of a file, each on a new result with the capacity `room`.
unfoldable pub run_threads : ℕ → ℕ → List ThreadData → Option (List Result)
run_threads junk room [] = some []
run_threads junk room (d ∷ ds) = elim (thread_rle junk d (init_result room)) [
  | none ↦ none
  | some r ↦ elim (run_threads junk room ds) [ none ↦ none | some rs ↦ some (r ∷ rs) ]
]

-- An empty file has a buffer of no byte, in which each thread reads byte 0.
unfoldable pub per_file : ℕ → ℕ → ℕ → List ℕ → Option (List Result)
per_file junk room num_threads cs =
    if ltb 0 (length cs) && chunks_fit (length cs) num_threads
    then run_threads junk room (init_threads cs (length cs / num_threads) 0 num_threads)
    else none

-- The loop over the files, with the results of all of them in `results_array`.
unfoldable pub all_files : ℕ → ℕ → ℕ → List (List ℕ) → Option (List Result)
all_files junk room num_threads [] = some []
all_files junk room num_threads (cs ∷ files) = elim (per_file junk room num_threads cs) [
  | none ↦ none
  | some rs ↦ elim (all_files junk room num_threads files) [
    | none ↦ none
    | some ss ↦ some (rs ++ ss)
  ]
]

unfoldable pub largest_file : List (List ℕ) → ℕ
largest_file [] = 0
largest_file (cs ∷ files) = max (length cs) (largest_file files)

-- `sysconf(_SC_NPROCESSORS_ONLN)` is `processors`.
unfoldable pub limit_threads : ℕ → ℕ → ℕ → ℕ
limit_threads processors num_threads largest =
    let wanted = if num_threads == 0 then processors else num_threads in
    min wanted (max (largest / 2048) 1)

-- The output of the program for the number of threads on its command line and the contents of its
-- files.
unfoldable pub main : ℕ → ℕ → ℕ → List (List ℕ) → Option (List ℕ)
main junk processors num_threads files =
    let largest = largest_file files in
    let n = limit_threads processors num_threads largest in
    elim (all_files junk (largest / n / 2) n files) [
      | none ↦ none
      | some results ↦ elim (merge results) [ none ↦ none | some r ↦ some (write_results r) ]
    ]
