-- ===== src/Compress/Wpzip/Interleaving.antt =====
-- The threads of wpzip, interleaved in any order: `main` creates them in the order of their data, with
-- the semaphore `thread_s`; each one scans its part, adds itself to `threads_done` under the mutex,
-- and posts the semaphore. Each thread writes to its own result only.
pub mod Balance
pub mod Outcome
pub mod Progress
mod Tests
use wpi_operating_systems.Base.{ℕ, zero, suc, ◌+◌, ◌-◌, ◌<◌, ◌≡◌, List, [], ◌∷◌, ◌++◌, length}
use wpi_operating_systems.Compress.Wpzip.{
  Result, ThreadData, Scan, scan_start, scan_step, scan_end, new_result,
}

-- Where a thread stands: not created, in its loop with a number of rounds left, behind the update of
-- `threads_done`, or behind `sem_post`.
pub data Pc : Type 0 where
  planned : Pc
  scanning : ℕ → Scan → Pc
  counted : Result → Pc
  posted : Result → Pc

pub record Thread : Type 0 where
  pub part : ThreadData
  pub pc : Pc

-- `thread_s`, `threads_done`, `thread_index` and the threads in the order of their results.
pub record System : Type 0 where
  pub thread_s : ℕ
  pub threads_done : ℕ
  pub thread_index : ℕ
  pub threads : List Thread

abbrev pub thread : ThreadData → Pc → Thread
thread d p = record { part = d; pc = p }

-- the threads before any is created
abbrev pub plan : List ThreadData → List Thread
plan [] = []
plan (d ∷ ds) = thread d planned ∷ plan ds

abbrev pub start_system : ℕ → List ThreadData → System
start_system num_threads ds = record {
  thread_s = num_threads;
  threads_done = 0;
  thread_index = 0;
  threads = plan ds;
}

module _ (junk : ℕ) where
  -- One step of `main` or of a thread; `xs` and `ys` are the threads before and behind the one that
  -- moves.
  pub data Step (s : System) : System → Type 0 where
    create :
        (xs : List Thread) (d : ThreadData) (ys : List Thread)
        → s.threads ≡ xs ++ (thread d planned ∷ ys)
        → length xs ≡ s.thread_index
        → 0 < s.thread_s
        → Step s (record s {
          thread_s = s.thread_s - 1;
          thread_index = s.thread_index + 1;
          threads =
              xs
              ++ (thread d
                    (scanning (d.end_offset - (d.start_offset + 1)) (scan_start junk d new_result))
                  ∷ ys);
        })
    scan :
        (xs : List Thread) (d : ThreadData) (n : ℕ) (v : Scan) (ys : List Thread)
        → s.threads ≡ xs ++ (thread d (scanning (suc n) v) ∷ ys)
        → Step s (record s { threads = xs ++ (thread d (scanning n (scan_step junk d v)) ∷ ys) })
    count :
        (xs : List Thread) (d : ThreadData) (v : Scan) (ys : List Thread)
        → s.threads ≡ xs ++ (thread d (scanning zero v) ∷ ys)
        → Step s (record s {
          threads_done = s.threads_done + 1;
          threads = xs ++ (thread d (counted (scan_end junk d v)) ∷ ys);
        })
    post :
        (xs : List Thread) (d : ThreadData) (r : Result) (ys : List Thread)
        → s.threads ≡ xs ++ (thread d (counted r) ∷ ys)
        → Step s
            (record s { thread_s = s.thread_s + 1; threads = xs ++ (thread d (posted r) ∷ ys) })

  pub data Reach (num_threads : ℕ) (ds : List ThreadData) : System → Type 0 where
    start : Reach num_threads ds (start_system num_threads ds)
    later : {s t : System} → Reach num_threads ds s → Step s t → Reach num_threads ds t
