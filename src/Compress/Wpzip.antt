-- ===== src/Compress/Wpzip.antt =====
-- The threaded wpzip of assigned-project-concurrency/wpzip.c: partition of a file among threads,
-- run-length encoding of each part, and the merge of the parts in order.
-- The arrays `counts` and `chars` are one list of pairs, and the linked list of results is a list.
-- Files open and are read whole, and their runs are shorter than 2 ^ 31 bytes, as an `int` counts
-- them; the number of threads is not negative, and threads are created. `none` is an access out of
-- bounds or an `int` that overflows; `junk` is what a read behind the end of the file's buffer gives.
pub mod Threads
pub mod Merge
pub mod Parts
pub mod Encodes
pub mod Interleaving
use mathlib.Core.Option
use Prim.Native.Nat.{max}
use wpi_operating_systems.Base.{
  ℕ, zero, suc, ◌+◌, ◌-◌, ◌*◌, ◌/◌, min, Bool, true, false, Option, none, some, List, [], ◌∷◌, ◌++◌,
  ◌&&◌, leb, ltb, ◌==◌, not, if◌then◌else◌, length, get_or, drop,
}
use wpi_operating_systems.Compress.Runs.{Entry, encode}
use wpi_operating_systems.Compress.Chunks.{chunks_fit}

abbrev pub small_file_threshold : ℕ
small_file_threshold = 4096

-- `Result`
pub record Result : Type 0 where
  pub entries : List Entry
  pub capacity : ℕ
  pub start : ℕ

unfoldable pub init_result : ℕ → Result
init_result n = record { entries = []; capacity = n; start = 0 }

-- The arrays are doubled when they are full.
unfoldable pub add_entry : Result → ℕ → ℕ → Result
add_entry r count c = record r {
  entries = r.entries ++ ((count, c) ∷ []);
  capacity = if length r.entries == r.capacity then r.capacity * 2 else r.capacity;
}

-- `ThreadData`
pub record ThreadData : Type 0 where
  pub start_offset : ℕ
  pub end_offset : ℕ
  pub file_data : List ℕ

-- The variables of `thread_rle` in its loop.
pub record Scan : Type 0 where
  pub pos : ℕ
  pub count : ℕ
  pub current : ℕ
  pub result : Result

module _ (junk : ℕ) where
  -- `c = file_data[start]` before the loop
  unfoldable pub scan_start : ThreadData → Result → Scan
  scan_start d r = record {
    pos = d.start_offset + 1;
    count = 1;
    current = get_or d.file_data d.start_offset junk;
    result = r;
  }

  -- one round of the loop
  unfoldable pub scan_step : ThreadData → Scan → Scan
  unfolding add_entry
  scan_step d s =
      let c = get_or d.file_data s.pos junk in
      if c == s.current then record s { pos = s.pos + 1; count = s.count + 1 } else record {
        pos = s.pos + 1;
        count = 1;
        current = c;
        result = add_entry s.result s.count s.current;
      }

  unfoldable pub scan_loop : ℕ → ThreadData → Scan → Scan
  unfolding scan_step
  scan_loop zero d s = s
  scan_loop (suc rounds) d s = scan_loop rounds d (scan_step d s)

  -- the last entry
  unfoldable pub scan_end : ThreadData → Scan → Result
  unfolding add_entry
  scan_end d s =
      if ltb 0 s.count && (s.pos == d.end_offset)
      then add_entry s.result s.count s.current
      else s.result

  -- The loop runs while `start < end`, and each round adds one to `start`.
  unfoldable pub thread_rle : ThreadData → Result → Result
  unfolding scan_start scan_loop scan_end
  thread_rle d r = scan_end d (scan_loop (d.end_offset - (d.start_offset + 1)) d (scan_start d r))

-- Dynamic allocation of threads by size, bound between its minimum and maximum.
unfoldable pub threads_per_file : ℕ → ℕ → ℕ
threads_per_file num_threads file_size = max (min (file_size / small_file_threshold) num_threads) 1

-- The data of the threads `i`, `i + 1`, … of a file, `n` of them, the last one of the file's. The
-- products are `int`s where `chunks_fit` holds, which `main` asks for.
unfoldable pub init_thread_data : List ℕ → ℕ → ℕ → ℕ → List ThreadData
init_thread_data cs chunk i zero = []
init_thread_data cs chunk i (suc n) =
    record {
      start_offset = chunk * i;
      end_offset = if not (n == 0) then chunk * (i + 1) else length cs;
      file_data = cs;
    }
    ∷ init_thread_data cs chunk (i + 1) n

-- The thread data of one file.
unfoldable pub file_threads : ℕ → List ℕ → List ThreadData
unfolding init_thread_data threads_per_file
file_threads num_threads cs =
    let n = threads_per_file num_threads (length cs) in init_thread_data cs (length cs / n) 0 n

abbrev pub all_threads : ℕ → List (List ℕ) → List ThreadData
all_threads num_threads [] = []
all_threads num_threads (cs ∷ files) = file_threads num_threads cs ++ all_threads num_threads files

-- the last entry, `none` at index -1
abbrev pub last? : List Entry → Option Entry
last? [] = none
last? (e ∷ []) = some e
last? (e ∷ f ∷ r) = last? (f ∷ r)

-- `counts[entries - 1] += k`
abbrev pub bump_last : List Entry → ℕ → List Entry
bump_last [] k = []
bump_last ((n, c) ∷ []) k = (n + k, c) ∷ []
bump_last (e ∷ f ∷ r) k = e ∷ bump_last (f ∷ r) k

-- The boundary of two results, the second one with the first entry given: the count is moved if the
-- characters agree. `none` is a read at index -1.
unfoldable pub absorb : Result → Entry → Result → Option (Result × Result)
absorb r (k, c) n = elim (last? r.entries) [
  | none ↦ none
  | some (j, d) ↦ some (
      if d == c
      then (record r { entries = bump_last r.entries k }, record n { start = 1 })
      else (r, n))
]

-- The loop of `merge` from `result_iter` on, over the results behind it.
unfoldable pub merge : Result → List Result → Option (List Result)
unfolding absorb
merge r [] = some (r ∷ [])
merge r (n ∷ rest) = elim n.entries [
  | [] ↦ some (r ∷ n ∷ rest)
  | e ∷ es ↦ elim (absorb r e n) [
    | none ↦ none
    | some (r', n') ↦ elim (length n'.entries == n'.start) [
      | true ↦ merge r' rest
      | false ↦ Option.map (λ t. r' ∷ t) (merge n' rest)
    ]
  ]
]

-- The loop ends at a result without entries and at the last one.
unfoldable pub write_results : List Result → List ℕ
write_results [] = []
write_results (r ∷ []) = []
write_results (r ∷ s ∷ rest) =
    let out = encode (drop r.start r.entries) ++ write_results (s ∷ rest) in
    if length r.entries == 0 then [] else out

abbrev pub new_result : Result
new_result = init_result (small_file_threshold / 4)

-- The results of the threads, each on its own `Result`, and the one that stays empty.
unfoldable pub thread_results : ℕ → List ThreadData → List Result
unfolding thread_rle init_result
thread_results junk [] = new_result ∷ []
thread_results junk (d ∷ ds) = thread_rle junk d new_result ∷ thread_results junk ds

-- Merge and output from the head of the list; `none` is a read out of bounds.
unfoldable pub finish : List Result → Option (List ℕ)
unfolding merge write_results
finish [] = none
finish (r ∷ rest) = Option.map write_results (merge r rest)

-- The output of the parts of all files, run one after another.
unfoldable pub wpzip : ℕ → ℕ → List (List ℕ) → Option (List ℕ)
unfolding thread_results file_threads finish
wpzip junk num_threads files = finish (thread_results junk (all_threads num_threads files))

abbrev pub all_chunks_fit : ℕ → List (List ℕ) → Bool
all_chunks_fit num_threads [] = true
all_chunks_fit num_threads (cs ∷ files) =
    chunks_fit (length cs) (threads_per_file num_threads (length cs))
    && all_chunks_fit num_threads files

-- `sysconf(_SC_NPROCESSORS_ONLN)` is `processors`.
unfoldable pub threads_wanted : ℕ → ℕ → ℕ
threads_wanted processors num_threads = if num_threads == 0 then processors else num_threads

-- The output of the program for the number of threads on its command line and the contents of its
-- files; `thread_ids` has room for 1000 threads.
unfoldable pub main : ℕ → ℕ → ℕ → List (List ℕ) → Option (List ℕ)
unfolding threads_wanted threads_per_file chunks_fit file_threads wpzip
main junk processors num_threads files =
    let n = threads_wanted processors num_threads in
    if all_chunks_fit n files && leb (length (all_threads n files)) 1000
    then wpzip junk n files
    else none
