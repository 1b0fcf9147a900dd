-- ===== src/Scheduling/Main.antt =====
-- arg_parse, analyze_run and main of scheduler.c. What `atoi`, the file of a path and the division of
-- floats give, and what `malloc` leaves in a job, in the cell of the queue and in the sums, are
-- arguments. The arguments of the program are those behind its name.
pub mod Prints
use wpi_operating_systems.Base.{
  ℕ, ℤ, pos, negsuc, Bool, true, false, Option, none, some, List, [], ◌∷◌, ◌++◌, ltb, ◌==◌,
  if◌then◌else◌, length, take,
}
use wpi_operating_systems.Shell.Text.{Text, text_eq}
use wpi_operating_systems.Scheduling.Jobs.{Job, count_jobs, create_job_queue}
use wpi_operating_systems.Scheduling.Policies.{Policy, fifo, sjf, rr}
use wpi_operating_systems.Scheduling.Stats.{JobStats}
use wpi_operating_systems.Scheduling.Run.{TraceLine, Metrics, Sim, handle_run}

-- `struct args`; an array that is full has no zero at its end.
pub record Args : Type 0 where
  pub analysis_mode : ℤ
  pub policy : Text
  pub file_path : Text
  pub timeslice : ℤ

-- What is printed, a line or a part of one at a time.
pub data Output (Average : Type 0) : Type 0 where
  usage : Output Average
  unexpected_policy : Text → Output Average
  execution_trace : Text → Output Average
  traced : TraceLine → Output Average
  end_of_execution : Text → Output Average
  begin_analyzing : Text → Output Average
  job_line : JobStats → Output Average
  averages : Average → Average → Average → Output Average
  end_analyzing : Text → Output Average

-- How the program ends: with a status and its output, in an access out of bounds, or with an `int`
-- that overflows. A run without enough fuel has no end.
pub data Ended (Average : Type 0) : Type 0 where
  exit : ℕ → List (Output Average) → Ended Average
  fault : Ended Average
  overflow : Ended Average
  out_of_fuel : Ended Average

-- The string in an array of `size` characters, if its zero is in the array.
unfoldable pub string_of : ℕ → Text → Option Text
string_of size text = if ltb (length text) size then some text else none

abbrev fifo_word : Text
fifo_word = 70 ∷ 73 ∷ 70 ∷ 79 ∷ []

abbrev sjf_word : Text
sjf_word = 83 ∷ 74 ∷ 70 ∷ []

abbrev rr_word : Text
rr_word = 82 ∷ 82 ∷ []

abbrev pub is_zero : ℤ → Bool
is_zero (pos k) = k == 0
is_zero (negsuc k) = false

-- The time slice of a run of `jobs_total` jobs. With a negative one each turn makes a job longer, and
-- no job is done before its length or the time overflows; without jobs it is not looked at.
abbrev pub slice_of : ℕ → ℤ → Option ℕ
slice_of jobs_total (pos k) = some k
slice_of jobs_total (negsuc k) = if jobs_total == 0 then some 0 else none

-- `strncmp` with the length of each word
unfoldable pub policy_of : Text → Option Policy
policy_of policy =
    if text_eq (take 4 policy) fifo_word
    then some fifo
    else if text_eq (take 3 policy) sjf_word
    then some sjf
    else if text_eq (take 2 policy) rr_word
    then some rr
    else none

abbrev pub traced_lines : {Average : Type 0} → List TraceLine → List (Output Average)
traced_lines [] = []
traced_lines (l ∷ ls) = traced l ∷ traced_lines ls

abbrev pub job_lines : {Average : Type 0} → List JobStats → List (Output Average)
job_lines [] = []
job_lines (s ∷ ss) = job_line s ∷ job_lines ss

module _ {Average : Type 0} (atoi : Text → ℤ) (block : ℕ → Job)
    (file : Text → Option (List (ℕ × ℕ))) (divide : ℕ → ℕ → Average) (job_queue : List Job)
    (sums : Metrics) where
  unfoldable pub arg_parse : Text → Text → Text → Text → Args
  arg_parse a b c d = record {
    analysis_mode = atoi a;
    policy = take 5 b;
    file_path = take 100 c;
    timeslice = atoi d;
  }

  unfoldable pub analyze_run : ℕ → Metrics → Text → List (Output Average)
  analyze_run num_jobs m policy =
      begin_analyzing policy
      ∷ (job_lines m.stats
          ++ (averages (divide m.sum_response_time num_jobs) (divide m.sum_turnaround_time num_jobs)
                (divide m.sum_wait_time num_jobs)
              ∷ end_analyzing policy
              ∷ []))

  -- The output of a run that ended.
  unfoldable pub report : Args → Text → ℕ → Sim → List (Output Average)
  unfolding analyze_run
  report args policy num_jobs s =
      execution_trace policy
      ∷ (traced_lines s.trace
          ++ (end_of_execution policy
              ∷ (if is_zero args.analysis_mode then [] else analyze_run num_jobs s.metrics policy)))

  -- The run with the policy of the arguments.
  unfoldable pub run_policy : ℕ → Args → Text → List Job → Option Policy → Ended Average
  unfolding report handle_run count_jobs
  run_policy fuel args policy jobs none = exit 1 (unexpected_policy policy ∷ [])
  run_policy fuel args policy jobs (some p) = elim (slice_of (count_jobs jobs) args.timeslice) [
    | none ↦ overflow
    | some timeslice ↦
        elim (handle_run fuel job_queue (record sums { stats = [] }) jobs timeslice p) [
          | none ↦ out_of_fuel
          | some s ↦ exit 0 (report args policy (count_jobs jobs) s)
        ]
  ]

  -- The jobs are read before the policy is looked at; every line with the policy prints its string.
  unfoldable pub run_args : ℕ → Args → Ended Average
  unfolding string_of create_job_queue policy_of run_policy
  run_args fuel args = elim (string_of 100 args.file_path) [
    | none ↦ fault
    | some path ↦ elim (create_job_queue block (file path)) [
      | none ↦ fault
      | some jobs ↦ elim (string_of 5 args.policy) [
        | none ↦ fault
        | some policy ↦ run_policy fuel args policy jobs (policy_of policy)
      ]
    ]
  ]

  unfoldable pub main : ℕ → List Text → Ended Average
  unfolding arg_parse run_args
  main fuel (a ∷ b ∷ c ∷ d ∷ []) = run_args fuel (arg_parse a b c d)
  main fuel argv = exit 1 (usage ∷ [])
