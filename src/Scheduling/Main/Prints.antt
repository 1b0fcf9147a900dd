-- ===== src/Scheduling/Main/Prints.antt =====
-- What the scheduler prints for a workload, and that it ends.
use wpi_operating_systems.Base.{
  ℕ, zero, suc, ◌+◌, ◌^◌, ◌<◌, ℤ, pos, ◌≡◌, refl, ap, ◌∙◌, true, Option, none, some, List, [], ◌∷◌,
  ltb, if◌then◌else◌, arith, length, take,
}
use wpi_operating_systems.Shell.Text.{Text}
use wpi_operating_systems.Scheduling.Jobs.{Job, count_jobs, create_job_queue}
use wpi_operating_systems.Scheduling.Jobs.All.{All}
use wpi_operating_systems.Scheduling.Policies.{Policy}
use wpi_operating_systems.Scheduling.Stats.Sorted.{IsSorted}
use wpi_operating_systems.Scheduling.Stats.Counted.{finished}
use wpi_operating_systems.Scheduling.Run.{Metrics, Sim, handle_run}
use wpi_operating_systems.Scheduling.Run.Accounts.{Ordered}
use wpi_operating_systems.Scheduling.Run.Completes.{
  IsFresh, total_length, occurrences, handle_run-finished,
}
use wpi_operating_systems.Scheduling.Main.{
  Args, Ended, exit, out_of_fuel, fault, overflow, slice_of, string_of, policy_of, arg_parse,
  report, run_policy, run_args, main,
}

-- A text that fits is copied and read back as a string.
string_of-take : (n : ℕ) (text : Text) → length text < n → string_of n (take n text) ≡ some text
unfolding string_of
string_of-take n text h =
    let fits : ltb (length text) n ≡ true = ground arith in
    ap (λ t. if ltb (length t) n then some t else none) (whole n text h) ∙ rw fits refl
  where
    whole : (n : ℕ) (text : Text) → length text < n → take n text ≡ text
    whole zero text l = absurd (omega arith)
    whole (suc n) [] l = refl
    whole (suc n) (c ∷ cs) l = ap (λ ds. c ∷ ds) (whole n cs (omega arith))

module _ {Average : Type 0} (atoi : Text → ℤ) (block : ℕ → Job)
    (file : Text → Option (List (ℕ × ℕ))) (divide : ℕ → ℕ → Average) (sums : Metrics) where
  -- The program ends with status 0 for four arguments whose policy has less than 5 characters and
  -- is known, whose time slice is not negative, and whose path has less than 100 and names a file
  -- from which unscheduled jobs are read, each of which takes at least one unit of time and less
  -- than INT_MAX and arrives until `last`, and which do not take the time past the range of an
  -- `int`. The cell of the queue held NULL before it was read; the sums held anything. It prints the trace of the run and, in analysis mode, the statistics: each job as often
  -- as it occurs in the workload, in order of job number, with response time at most wait time and
  -- wait time at most turnaround time. As many rounds as all jobs take time, and `last` more, are
  -- enough.
  pub main-finished :
      (mode policy path slice : Text) (jobs : List Job) (p : Policy) (last fuel k : ℕ)
      → length policy < 5
      → length path < 100
      → policy_of policy ≡ some p
      → atoi slice ≡ pos k
      → create_job_queue block (file path) ≡ some jobs
      → All (IsFresh last) jobs
      → total_length jobs + last < 2 ^ 31
      → total_length jobs + last < fuel
      → (s : Sim) × (main atoi block file divide [] sums fuel (mode ∷ policy ∷ path ∷ slice ∷ [])
          ≡ exit 0 (
              report atoi block file divide [] sums
                (arg_parse atoi block file divide [] sums mode policy path slice)
                policy
                (count_jobs jobs)
                s))
        × ((n : ℕ) → finished n s.metrics.stats ≡ occurrences n jobs)
        × IsSorted s.metrics.stats
        × All Ordered s.metrics.stats
  unfolding main run_args arg_parse run_policy
  main-finished mode policy path slice jobs p last fuel k short_policy short_path known slice_pos
        read fresh in_int enough =
      let (s, run, all, sorted, ordered) =
        handle_run-finished (record sums { stats = [] }) jobs last fuel k p refl fresh in_int
          enough in
      (
        s,
        ap by_path (string_of-take 100 path short_path)
            ∙ ap by_jobs read
            ∙ ap (by_policy jobs) (string_of-take 5 policy short_policy)
            ∙ ap (run_policy atoi block file divide [] sums fuel args policy jobs) known
            ∙ ap (λ z. by_slice (slice_of (count_jobs jobs) z)) slice_pos
            ∙ ap by_run run,
        all,
        sorted,
        ordered,
      )
    where
      args : Args
      args = arg_parse atoi block file divide [] sums mode policy path slice

      by_policy : List Job → Option Text → Ended Average
      by_policy js none = fault
      by_policy js (some q) = run_policy atoi block file divide [] sums fuel args q js (policy_of q)

      by_jobs : Option (List Job) → Ended Average
      by_jobs none = fault
      by_jobs (some js) = by_policy js (string_of 5 args.policy)

      by_path : Option Text → Ended Average
      by_path none = fault
      by_path (some q) = by_jobs (create_job_queue block (file q))

      by_run : Option Sim → Ended Average
      by_run none = out_of_fuel
      by_run (some s) =
          exit 0 (report atoi block file divide [] sums args policy (count_jobs jobs) s)

      by_slice : Option ℕ → Ended Average
      by_slice none = overflow
      by_slice (some q) = by_run (handle_run fuel [] (record sums { stats = [] }) jobs q p)
