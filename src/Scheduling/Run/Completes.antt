-- ===== src/Scheduling/Run/Completes.antt =====
-- The simulation ends, and each job is finished once.
use wpi_operating_systems.Base.{
  ℕ, zero, suc, ◌+◌, ◌-◌, ◌^◌, ◌≤◌, ◌<◌, ◌≡◌, refl, sym, ap, subst, false, Bool-cases, inl, inr,
  some, List, [], ◌∷◌, ◌++◌, ltb, ◌==◌, if◌then◌else◌, arith, get_elem?, set,
}
use wpi_operating_systems.Scheduling.Jobs.{Job, count_jobs}
use wpi_operating_systems.Scheduling.Jobs.All.{All}
use wpi_operating_systems.Scheduling.Jobs.Keys.{Key, key, keys, waiting, total, Waits}
use wpi_operating_systems.Scheduling.Stats.Counted.{finished}
use wpi_operating_systems.Scheduling.Stats.Sorted.{IsSorted}
use wpi_operating_systems.Scheduling.Policies.{Policy, policy_func, int_max}
use wpi_operating_systems.Scheduling.Policies.Picks.{policy_func-Picks}
use wpi_operating_systems.Scheduling.Run.{
  Metrics, Sim, runtime, run_job, set_start, add_wait, arrivals, shift, run_at, round, run_loop,
  start_sim, handle_run,
}
use wpi_operating_systems.Scheduling.Run.Accounts.{
  round-some, round-none, Ordered, handle_run-Ordered,
}
use wpi_operating_systems.Scheduling.Run.Fair.{
  is_id, one, left, Runnable, Short, IsFair, measure, arrivals-IsFair, work-arrivals,
  sim_time-arrivals, idle-IsFair,
}
use wpi_operating_systems.Scheduling.Run.Running.{
  runtime_bounds, finish_job_more, shift-IsFair, work-shift, sim_time-shift, total_replaced,
  replaced-IsEarly, finish_job-IsFair,
}

run_job_id : (timeslice t : ℕ) (j : Job) → (run_job timeslice t j).id ≡ j.id
unfolding run_job set_start add_wait
run_job_id timeslice t j = ground arith

run_job_length :
    (timeslice t : ℕ) (j : Job) → (run_job timeslice t j).length ≡ j.length - runtime timeslice j
unfolding run_job set_start add_wait
run_job_length timeslice t j = ground arith

get_elem?-Short :
    (q : List Job) (i : ℕ) (j : Job) → All Short (keys q) → get_elem? q i ≡ some j → Short (key j)
get_elem?-Short [] i j h e = cc
get_elem?-Short (x ∷ q) zero j h e =
    let same : x ≡ j = ground arith in subst (λ y. Short (key y)) same h.0
get_elem?-Short (x ∷ q) (suc i) j h e = get_elem?-Short q i j h.1 e

-- A round that runs a job leaves less to do.
run_at-IsFair :
    (jobs : List Job) (last timeslice : ℕ) (s : Sim) (i : ℕ) (j : Job)
    → IsFair jobs last s
    → get_elem? s.job_queue i ≡ some j
    → IsFair jobs last (run_at timeslice i j s)
      × (measure last (run_at timeslice i j s) < measure last s)
unfolding run_at
run_at-IsFair jobs last timeslice s i j v at =
    let j' : Job = run_job timeslice s.sim_time j in
    let s' : Sim = record s {
      sim_time = s.sim_time + runtime timeslice j;
      job_queue = set s.job_queue i j';
      trace =
          s.trace
          ++ (record {
            time = s.sim_time;
            job = j.id;
            arrived = j.arrival_time;
            ran_for = runtime timeslice j;
          }
              ∷ []);
    } in
    let (pos, small) = get_elem?-Short s.job_queue i j v.short at in
    let (some_run, le) = runtime_bounds timeslice j pos in
    let len : j'.length ≡ j.length - runtime timeslice j = run_job_length timeslice s.sim_time j in
    let less =
      total_replaced jobs last s v i j j' at (run_job_id timeslice s.sim_time j) s' refl refl refl
        refl left in
    elim (Bool-cases (j'.length == 0)) [
      | inl y ↦
          let done : j'.length ≡ 0 = ground arith in
          let (fair, same, now) =
            finish_job-IsFair jobs last s v i j j' at (run_job_id timeslice s.sim_time j) s' refl
              refl refl refl done in
          (fair, omega arith)
      | inr y ↦
          let more : 0 < j'.length = ground arith in
          let e = finish_job_more j' (shift (arrivals s')) more in
          let early =
            replaced-IsEarly jobs last s v i j j' at (run_job_id timeslice s.sim_time j) s' refl
              refl refl refl more (omega arith) in
          (
            subst (IsFair jobs last) (sym e)
                (shift-IsFair jobs last (arrivals s') (arrivals-IsFair jobs last s' early)),
            subst (λ t. measure last t < measure last s) (sym e)
                (omega (
                  arith,
                  work-shift (arrivals s'),
                  sim_time-shift (arrivals s'),
                  work-arrivals s',
                  sim_time-arrivals s',
                )),
          )
    ]

below-All : (q : List Job) → All Short (keys q) → All (λ j. j.length < int_max) q
below-All [] h = tt
below-All (j ∷ q) h = (h.0.1, below-All q h.1)

-- While jobs are left, a round leaves less to do, whichever of the three policies picks.
round-IsFair :
    (jobs : List Job) (last timeslice : ℕ) (p : Policy) (s : Sim)
    → IsFair jobs last s
    → s.jobs_run < count_jobs jobs
    → IsFair jobs last (round (policy_func p) timeslice s)
      × (measure last (round (policy_func p) timeslice s) < measure last s)
round-IsFair jobs last timeslice p s v more =
    elim (policy_func-Picks p s.job_queue (below-All s.job_queue v.short)) [
      | inl (e, empty) ↦
          subst (λ t. IsFair jobs last t × (measure last t < measure last s))
            (sym (round-none (policy_func p) timeslice s e)) (idle-IsFair jobs last s v empty more)
      | inr (i, j, e, at) ↦
          subst (λ t. IsFair jobs last t × (measure last t < measure last s))
            (sym (round-some (policy_func p) timeslice s i j e at))
            (run_at-IsFair jobs last timeslice s i j v at)
    ]

run_loop-ends :
    (fuel : ℕ) (jobs : List Job) (last timeslice : ℕ) (p : Policy) (s : Sim)
    → IsFair jobs last s
    → measure last s < fuel
    → (s' : Sim) × (run_loop fuel (policy_func p) timeslice (count_jobs jobs) s ≡ some s')
      × IsFair jobs last s'
      × (count_jobs jobs ≤ s'.jobs_run)
unfolding run_loop
run_loop-ends zero jobs last timeslice p s v enough = absurd (omega arith)
run_loop-ends (suc fuel) jobs last timeslice p s v enough =
    elim (Bool-cases (ltb s.jobs_run (count_jobs jobs))) [
      | inl y ↦
          let (fair, less) = round-IsFair jobs last timeslice p s v (ground arith) in
          rw y (
            run_loop-ends fuel jobs last timeslice p (round (policy_func p) timeslice s) fair
              (omega arith))
      | inr y ↦ rw y (s, refl, v, ground arith)
    ]

-- How often a number is that of a job.
abbrev pub occurrences : ℕ → List Job → ℕ
occurrences n [] = 0
occurrences n (j ∷ js) = (if j.id == n then 1 else 0) + occurrences n js

-- The time that all jobs take together.
abbrev pub total_length : List Job → ℕ
total_length [] = 0
total_length (j ∷ js) = j.length + total_length js

-- A job as it is before the simulation.
abbrev pub IsFresh : ℕ → Job → Type 0
IsFresh last j = (j.scheduled ≡ false) × Runnable last j

fresh-Waits : (last : ℕ) (js : List Job) → All (IsFresh last) js → All (Waits (Runnable last)) js
fresh-Waits last [] h = tt
fresh-Waits last (j ∷ js) h = ((λ e. h.0.1), fresh-Waits last js h.1)

waiting-fresh : (last : ℕ) (js : List Job) → All (IsFresh last) js → waiting js ≡ keys js
waiting-fresh last [] h = refl
waiting-fresh last (j ∷ js) h = let e = h.0.0 in rw e (ap (◌∷◌ (key j)) (waiting-fresh last js h.1))

total-one : (js : List Job) → total one (keys js) ≡ count_jobs js
unfolding count_jobs
total-one [] = refl
total-one (j ∷ js) = omega (arith, total-one js)

total-left : (js : List Job) → total left (keys js) ≡ total_length js
total-left [] = refl
total-left (j ∷ js) = omega (arith, total-left js)

total-is_id : (n : ℕ) (js : List Job) → total (is_id n) (keys js) ≡ occurrences n js
total-is_id n [] = refl
total-is_id n (j ∷ js) = omega (arith, total-is_id n js)

total_zero : (w : Key → ℕ) (ks : List Key) → total one ks ≡ 0 → total w ks ≡ 0
total_zero w [] h = refl
total_zero w (k ∷ ks) h = absurd (omega arith)

start-IsFair :
    (m : Metrics) (jobs : List Job) (last : ℕ)
    → m.stats ≡ []
    → All (IsFresh last) jobs
    → IsFair jobs last (start_sim [] m jobs)
      × (measure last (start_sim [] m jobs) ≡ total_length jobs + last)
unfolding start_sim
start-IsFair m jobs last no_stats h =
    let s : Sim = record {
      sim_time = 0;
      jobs_run = 0;
      job_queue = [];
      job_head = jobs;
      metrics = m;
      trace = [];
    } in
    let none_done : (n : ℕ) → finished n m.stats ≡ 0 = λ n. ap (finished n) no_stats in
    let all_wait = waiting-fresh last jobs h in
    (
      arrivals-IsFair jobs last s (record {
        short = tt;
        waits = fresh-Waits last jobs h;
        kept = record {
          each = λ n. omega (arith, none_done n, ap (total (is_id n)) all_wait);
          all = omega (arith, ap (total one) all_wait, total-one jobs);
        };
      }),
      omega
          (arith, work-arrivals s, sim_time-arrivals s, ap (total left) all_wait, total-left jobs),
    )

-- The simulation ends and completes the workload. If the jobs are unscheduled, each takes at least one
-- unit of time and less than INT_MAX, none arrives after `last`, all together do not take the time
-- past the range of an `int`, the cell of the queue held NULL before it was read and there are no
-- statistics, then with every policy and every time slice that is not negative `handle_run` returns
-- within as many rounds as all jobs take time, and `last` more; each job then has its statistics exactly as often as it occurs in the workload, in order of job number, with
-- response time at most wait time and wait time at most turnaround time.
pub handle_run-finished :
    (m : Metrics) (jobs : List Job) (last fuel timeslice : ℕ) (p : Policy)
    → m.stats ≡ []
    → All (IsFresh last) jobs
    → total_length jobs + last < 2 ^ 31
    → total_length jobs + last < fuel
    → (s : Sim) × (handle_run fuel [] m jobs timeslice p ≡ some s)
      × ((n : ℕ) → finished n s.metrics.stats ≡ occurrences n jobs)
      × IsSorted s.metrics.stats
      × All Ordered s.metrics.stats
unfolding handle_run
handle_run-finished m jobs last fuel timeslice p no_stats h in_int enough =
    let (fair, size) = start-IsFair m jobs last no_stats h in
    let (s, run, v, all_run) =
      run_loop-ends fuel jobs last timeslice p (start_sim [] m jobs) fair (omega arith) in
    let none_queued : total one (keys s.job_queue) ≡ 0 = omega (arith, v.kept.all) in
    let none_wait : total one (waiting s.job_head) ≡ 0 = omega (arith, v.kept.all) in
    let (ordered, sorted) = handle_run-Ordered fuel m jobs timeslice p s no_stats run in
    (
      s,
      run,
      λ n. omega (
        arith,
        v.kept.each n,
        total_zero (is_id n) (keys s.job_queue) none_queued,
        total_zero (is_id n) (waiting s.job_head) none_wait,
        total-is_id n jobs,
      ),
      sorted,
      ordered,
    )
