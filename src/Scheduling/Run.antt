-- ===== src/Scheduling/Run.antt =====
-- `handle_run`: the simulation. Each round of its loop is `round`; the loop runs on fuel.
-- The float sums hold whole numbers and are natural numbers here, also as `malloc` left them. What it
-- left in the cell of the queue is an argument.
pub mod Accounts
pub mod Fair
pub mod Running
pub mod Completes
use wpi_operating_systems.Base.{
  ℕ, zero, suc, ◌+◌, ◌-◌, ◌≤◌, ◌<◌, ◌≡◌, Bool, Option, none, some, List, [], ◌∷◌, ◌++◌, ltb, ◌==◌,
  if◌then◌else◌, get_elem?, set,
}
use wpi_operating_systems.Scheduling.Jobs.{
  Job, count_jobs, add_new_jobs, shift_job_queue, remove_finished_jobs,
}
use wpi_operating_systems.Scheduling.Policies.{Policy, policy_func}
use wpi_operating_systems.Scheduling.Stats.{JobStats, insert_stats_sorted}

-- one line of the execution trace
pub record TraceLine : Type 0 where
  pub time : ℕ
  pub job : ℕ
  pub arrived : ℕ
  pub ran_for : ℕ

-- `struct metrics`, less `num_jobs`
pub record Metrics : Type 0 where
  pub sum_turnaround_time : ℕ
  pub sum_response_time : ℕ
  pub sum_wait_time : ℕ
  pub stats : List JobStats

-- The variables of `handle_run`.
pub record Sim : Type 0 where
  pub sim_time : ℕ
  pub jobs_run : ℕ
  pub job_queue : List Job
  pub job_head : List Job
  pub metrics : Metrics
  pub trace : List TraceLine

-- `MIN(timeslice, length)`, or the whole length where the time slice is 0
unfoldable pub runtime : ℕ → Job → ℕ
runtime timeslice j =
    if timeslice == 0 then j.length else if ltb timeslice j.length then timeslice else j.length

-- setting start time
unfoldable pub set_start : ℕ → Job → Job
set_start t j = elim j.start_time [
  | none ↦ record j { start_time = some t; wait_time = t - j.arrival_time }
  | some s ↦ j
]

unfoldable pub add_wait : ℕ → Job → Job
add_wait t j = elim j.last_run [
  | none ↦ j
  | some l ↦ record j { wait_time = j.wait_time + (t - l) }
]

-- What a round does to the job that runs from `t` on.
unfoldable pub run_job : ℕ → ℕ → Job → Job
unfolding set_start add_wait
run_job timeslice t j =
    let k = add_wait t (set_start t j) in
    record k { length = k.length - runtime timeslice j; last_run = some (t + runtime timeslice j) }

unfoldable pub start_or : Job → ℕ
start_or j = elim j.start_time [ none ↦ 0 | some s ↦ s ]

-- the statistics of a job that is done at `t`
unfoldable pub job_stats : ℕ → Job → JobStats
unfolding start_or
job_stats t j = record {
  id = j.id;
  response_time = start_or j - j.arrival_time;
  turnaround_time = t - j.arrival_time;
  wait_time = j.wait_time;
}

unfoldable pub add_stats : Metrics → JobStats → Metrics
add_stats m s = record {
  sum_turnaround_time = m.sum_turnaround_time + s.turnaround_time;
  sum_response_time = m.sum_response_time + s.response_time;
  sum_wait_time = m.sum_wait_time + s.wait_time;
  stats = insert_stats_sorted m.stats s;
}

-- Arrivals up to the time of `s`.
unfoldable pub arrivals : Sim → Sim
arrivals s =
    let (q, h) = add_new_jobs s.job_queue s.job_head s.sim_time in
    record s { job_queue = q; job_head = h }

-- The end of a round: a job that is done is counted and removed.
unfoldable pub finish_job : Job → Sim → Sim
unfolding add_stats job_stats
finish_job j s =
    if j.length == 0
    then record s {
      jobs_run = s.jobs_run + 1;
      job_queue = (remove_finished_jobs s.job_queue).0;
      metrics = add_stats s.metrics (job_stats s.sim_time j);
    }
    else s

unfoldable pub shift : Sim → Sim
shift s = record s { job_queue = shift_job_queue s.job_queue }

-- The round with the job `j` at position `i` of the queue.
unfoldable pub run_at : ℕ → ℕ → Job → Sim → Sim
unfolding run_job runtime arrivals shift finish_job
run_at timeslice i j s =
    let j' = run_job timeslice s.sim_time j in
    finish_job j' (
      shift (
        arrivals (record s {
          sim_time = s.sim_time + runtime timeslice j;
          job_queue = set s.job_queue i j';
          trace =
              s.trace
              ++ (record {
                time = s.sim_time;
                job = j.id;
                arrived = j.arrival_time;
                ran_for = runtime timeslice j;
              }
                  ∷ []);
        })))

-- The round without a job: time passes.
unfoldable pub idle : Sim → Sim
unfolding arrivals
idle s = arrivals (record s { sim_time = s.sim_time + 1 })

unfoldable pub round : (List Job → Option ℕ) → ℕ → Sim → Sim
unfolding run_at idle
round policy timeslice s = elim (policy s.job_queue) [
  | none ↦ idle s
  | some i ↦ elim (get_elem? s.job_queue i) [ none ↦ idle s | some j ↦ run_at timeslice i j s ]
]

-- `none`: out of fuel
unfoldable pub run_loop : ℕ → (List Job → Option ℕ) → ℕ → ℕ → Sim → Option Sim
unfolding round
run_loop zero policy timeslice jobs_total s = none
run_loop (suc fuel) policy timeslice jobs_total s =
    let rest = run_loop fuel policy timeslice jobs_total (round policy timeslice s) in
    if ltb s.jobs_run jobs_total then rest else some s

-- The queue and the sums start as what fresh memory holds.
unfoldable pub start_sim : List Job → Metrics → List Job → Sim
unfolding arrivals
start_sim job_queue run_metrics job_head = arrivals (record {
  sim_time = 0;
  jobs_run = 0;
  job_queue = job_queue;
  job_head = job_head;
  metrics = run_metrics;
  trace = [];
})

unfoldable pub handle_run : ℕ → List Job → Metrics → List Job → ℕ → Policy → Option Sim
unfolding run_loop start_sim
handle_run fuel job_queue run_metrics job_head timeslice p =
    run_loop fuel (policy_func p) timeslice (count_jobs job_head)
      (start_sim job_queue run_metrics job_head)
