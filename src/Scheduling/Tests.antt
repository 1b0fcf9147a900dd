-- ===== src/Scheduling/Tests.antt =====
-- The scheduler on small workloads.
use wpi_operating_systems.Base.{
  ◌/◌, pos, length, ℕ, ◌<◌, ◌≤◌, ◌≡◌, refl, ◌⊎◌, false, Option, none, some, List, [], ◌∷◌, arith,
}
use wpi_operating_systems.Scheduling.Main.{exit, report, arg_parse, policy_of, main}
use wpi_operating_systems.Scheduling.Main.Prints.{main-finished}
use wpi_operating_systems.Scheduling.Jobs.{
  job_rows, create_job_queue, Job, count_jobs, add_new_jobs, shift_job_queue, remove_finished_jobs,
}
use wpi_operating_systems.Scheduling.Jobs.All.{All}
use wpi_operating_systems.Scheduling.Policies.{int_max, policy_func, sjf, rr, fifo}
use wpi_operating_systems.Scheduling.Policies.Shortest.{IsShortest, policy_func-IsShortest}
use wpi_operating_systems.Scheduling.Stats.{JobStats}
use wpi_operating_systems.Scheduling.Stats.Sorted.{IsSorted}
use wpi_operating_systems.Scheduling.Run.{TraceLine, Metrics, Sim, round, start_sim, handle_run}
use wpi_operating_systems.Scheduling.Stats.Counted.{finished}
use wpi_operating_systems.Scheduling.Run.Completes.{IsFresh, occurrences, handle_run-finished}
use wpi_operating_systems.Scheduling.Run.Accounts.{
  Ordered, Accounts, IsAccounted, round-IsAccounted, start-IsAccounted,
}

abbrev job : ℕ → ℕ → ℕ → Job
job id arrival len = record {
  id = id;
  arrival_time = arrival;
  length = len;
  scheduled = false;
  next_to_run = false;
  original_length = len;
  start_time = none;
  wait_time = 0;
  last_run = none;
}

abbrev workload : List Job
workload = job 0 0 3 ∷ job 1 1 2 ∷ []

-- Sums that are not cleared.
abbrev used : Metrics
used = record { sum_turnaround_time = 5; sum_response_time = 6; sum_wait_time = 7; stats = [] }

abbrev line : ℕ → ℕ → ℕ → ℕ → TraceLine
line time j arrived ran_for = record { time = time; job = j; arrived = arrived; ran_for = ran_for }

abbrev trace_of : Option Sim → List TraceLine
trace_of none = []
trace_of (some s) = s.trace

-- With a time slice of 1 the two jobs take turns.
rr_trace :
    trace_of (handle_run 10 [] used workload 1 rr)
    ≡ line 0 0 0 1 ∷ line 1 1 1 1 ∷ line 2 0 0 1 ∷ line 3 1 1 1 ∷ line 4 0 0 1 ∷ []
unfolding handle_run count_jobs policy_func add_new_jobs shift_job_queue remove_finished_jobs
rr_trace = refl

fifo_trace : trace_of (handle_run 10 [] used workload 0 fifo) ≡ line 0 0 0 3 ∷ line 3 1 1 2 ∷ []
unfolding handle_run count_jobs policy_func add_new_jobs shift_job_queue remove_finished_jobs
fifo_trace = refl

round-IsAccounted_example : IsAccounted (round (policy_func rr) 1 (start_sim [] used workload))
round-IsAccounted_example =
    round-IsAccounted (policy_func rr) 1 (start_sim [] used workload)
      (start-IsAccounted used workload refl)

-- Arrived at 1, ran for 2 from 4 on.
abbrev done : Job
done = record (job 1 1 0) {
  original_length = 2;
  start_time = some 4;
  wait_time = 3;
  last_run = some 6;
}

done-Accounts : Accounts 6 done
done-Accounts = (omega arith, omega arith, omega arith)

policy_func-IsShortest_example :
    ((policy_func sjf workload ≡ none) × All (λ x. int_max ≤ x.length) workload)
    ⊎ ((i : ℕ) × (j : Job) × (policy_func sjf workload ≡ some i)
        × (j.length < int_max)
        × IsShortest workload i j)
policy_func-IsShortest_example = policy_func-IsShortest workload

abbrev stats : ℕ → JobStats
stats id = record { id = id; response_time = 0; turnaround_time = 0; wait_time = 0 }

workload-IsFresh : All (IsFresh 1) workload
workload-IsFresh = ((refl, omega arith), ((refl, omega arith), tt))

handle_run-finished_example :
    (s : Sim) × (handle_run 7 [] used workload 1 rr ≡ some s)
    × ((n : ℕ) → finished n s.metrics.stats ≡ occurrences n workload)
    × IsSorted s.metrics.stats
    × All Ordered s.metrics.stats
handle_run-finished_example =
    handle_run-finished used workload 1 7 1 rr refl workload-IsFresh (omega arith) (omega arith)

-- The rows 0,3 and 1,2 of a file, in jobs whose other fields malloc left at 0.
abbrev rows : Option (List (ℕ × ℕ))
rows = some ((0, 3) ∷ (1, 2) ∷ [])

abbrev block : ℕ → Job
block i = job i 0 0

abbrev read_jobs : List Job
read_jobs =
    record (job 0 0 0) { id = 0; arrival_time = 0; length = 3 }
    ∷ record (job 1 0 0) { id = 1; arrival_time = 1; length = 2 }
    ∷ []

read_rows : create_job_queue block rows ≡ some read_jobs
unfolding create_job_queue job_rows
read_rows = refl

read-IsFresh : All (IsFresh 1) read_jobs
read-IsFresh = ((refl, omega arith), ((refl, omega arith), tt))

-- `./scheduler 1 RR w 1`
main-finished_example :
    (s : Sim) × (main
        (λ text. pos (length text))
        block
        (λ path. rows)
        ◌/◌
        []
        used
        7
        ((49 ∷ []) ∷ (82 ∷ 82 ∷ []) ∷ (119 ∷ []) ∷ (49 ∷ []) ∷ [])
      ≡ exit 0 (
          report
            (λ text. pos (length text))
            block
            (λ path. rows)
            ◌/◌
            []
            used
            (arg_parse
              (λ text. pos (length text))
              block
              (λ path. rows)
              ◌/◌
              []
              used
              (49 ∷ [])
              (82 ∷ 82 ∷ [])
              (119 ∷ [])
              (49 ∷ []))
            (82 ∷ 82 ∷ [])
            (count_jobs read_jobs)
            s))
    × ((n : ℕ) → finished n s.metrics.stats ≡ occurrences n read_jobs)
    × IsSorted s.metrics.stats
    × All Ordered s.metrics.stats
main-finished_example =
    main-finished (λ text. pos (length text)) block (λ path. rows) ◌/◌ used (49 ∷ []) (82 ∷ 82 ∷ [])
      (119 ∷ []) (49 ∷ []) read_jobs rr 1 7 1 (omega arith) (omega arith) (unfold policy_of in refl)
      refl read_rows read-IsFresh (omega arith) (omega arith)
