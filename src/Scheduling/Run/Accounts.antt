-- ===== src/Scheduling/Run/Accounts.antt =====
-- The times of a job: how long it waited, and what its statistics say.
use wpi_operating_systems.Base.{
  ℕ, zero, suc, ◌+◌, ◌-◌, ◌≤◌, ◌≡◌, refl, sym, subst, true, Bool-cases, inl, inr, Option, none,
  some, Option-cases, List, [], ◌∷◌, ◌++◌, ltb, ◌==◌, arith, get_elem?, set,
}
use wpi_operating_systems.Scheduling.Jobs.{
  Job, count_jobs, copy_job, arrives, add_new_jobs, new_jobs,
}
use wpi_operating_systems.Scheduling.Jobs.All.{
  All, All-append, All-set, All-mono, All-remove_finished_jobs, All-shift_job_queue, All-new_jobs,
}
use wpi_operating_systems.Scheduling.Stats.{JobStats}
use wpi_operating_systems.Scheduling.Stats.Sorted.{
  IsSorted, insert_stats_sorted-IsSorted, All-insert_stats_sorted,
}
use wpi_operating_systems.Scheduling.Policies.{Policy, policy_func}
use wpi_operating_systems.Scheduling.Run.{
  Metrics, Sim, runtime, set_start, add_wait, run_job, start_or, job_stats, add_stats, arrivals,
  finish_job, shift, run_at, idle, round, run_loop, start_sim, handle_run,
}

-- The times of a job at time `t`: before its first run nothing has been counted, and after it the
-- time since arrival is split into what it waited and what it ran, up to the end of its last run.
abbrev pub Times : ℕ → Job → Option ℕ → Option ℕ → Type 0
Times t j none none = (j.wait_time ≡ 0) × (j.length ≡ j.original_length)
Times t j none (some l) = ⊥
Times t j (some s) none = ⊥
Times t j (some s) (some l) =
    (j.arrival_time ≤ s)
    × (s ≤ j.arrival_time + j.wait_time)
    × (l ≤ t)
    × (j.arrival_time + j.wait_time + (j.original_length - j.length) ≡ l)

abbrev pub Accounts : ℕ → Job → Type 0
Accounts t j =
    (j.arrival_time ≤ t) × (j.length ≤ j.original_length) × Times t j j.start_time j.last_run

-- Time passes.
Accounts-mono : (t u : ℕ) → t ≤ u → (j : Job) → Accounts t j → Accounts u j
Accounts-mono t u le j a = (omega arith, omega arith, go j.start_time j.last_run a.2)
  where
    go : (s l : Option ℕ) → Times t j s l → Times u j s l
    go none none h = h
    go none (some l) h = h
    go (some s) none h = h
    go (some s) (some l) h = omega arith

runtime-le : (timeslice : ℕ) (j : Job) → runtime timeslice j ≤ j.length
unfolding runtime
runtime-le timeslice j = ground arith

-- A run keeps the times of the job that runs.
run_job-Accounts :
    (timeslice t : ℕ) (j : Job)
    → Accounts t j
    → Accounts (t + runtime timeslice j) (run_job timeslice t j)
unfolding run_job set_start add_wait
run_job-Accounts timeslice t j a = go j.start_time j.last_run refl refl a.2
  where
    go :
        (s l : Option ℕ)
        → j.start_time ≡ s
        → j.last_run ≡ l
        → Times t j s l
        → Accounts (t + runtime timeslice j) (run_job timeslice t j)
    go none none es el h = rw (es, el) (ground (arith, runtime-le timeslice j))
    go none (some l) es el h = absurd h
    go (some s) none es el h = absurd h
    go (some s) (some l) es el h = rw (es, el) (ground (arith, runtime-le timeslice j))

-- A run ends the last run of the job now, and uses up at most its length.
run_job_ends :
    (timeslice t : ℕ) (j : Job) → (run_job timeslice t j).last_run ≡ some (t + runtime timeslice j)
unfolding run_job
run_job_ends timeslice t j = refl

-- A job that is done at the end of its last run: its turnaround time is the time that it waited and
-- its whole length, and it was first served before it stopped waiting.
pub job_stats_times :
    (t : ℕ) (j : Job)
    → Accounts t j
    → j.last_run ≡ some t
    → j.length ≡ 0
    → ((job_stats t j).turnaround_time ≡ (job_stats t j).wait_time + j.original_length)
      × ((job_stats t j).response_time ≤ (job_stats t j).wait_time)
unfolding job_stats start_or
job_stats_times t j a ended done = go j.start_time j.last_run refl refl a.2
  where
    go :
        (s l : Option ℕ)
        → j.start_time ≡ s
        → j.last_run ≡ l
        → Times t j s l
        → (t - j.arrival_time ≡ j.wait_time + j.original_length)
          × (elim j.start_time [ none ↦ 0 | some s ↦ s ] - j.arrival_time ≤ j.wait_time)
    go none none es el h = absurd (ground arith)
    go none (some l) es el h = absurd h
    go (some s) none es el h = absurd h
    go (some s) (some l) es el h = rw es (ground arith)

-- Statistics whose times are in order.
abbrev pub Ordered : JobStats → Type 0
Ordered s = (s.response_time ≤ s.wait_time) × (s.wait_time ≤ s.turnaround_time)

-- A simulation whose queue and statistics are accounted for.
pub record IsAccounted (s : Sim) : Type 0 where
  pub queue : All (Accounts s.sim_time) s.job_queue
  pub ordered : All Ordered s.metrics.stats
  pub sorted : IsSorted s.metrics.stats

arrivals-IsAccounted : (s : Sim) → IsAccounted s → IsAccounted (arrivals s)
unfolding arrivals add_new_jobs
arrivals-IsAccounted s v = record {
  queue =
      All-append (Accounts s.sim_time) s.job_queue (new_jobs s.sim_time s.job_head).0 v.queue
        (All-new_jobs (Accounts s.sim_time) s.sim_time s.job_head (arrived s.job_head));
  ordered = v.ordered;
  sorted = v.sorted;
}
  where
    arrived :
        (js : List Job)
        → All
            (λ j.
              arrives s.sim_time j ≡ true
              → Accounts s.sim_time (copy_job (record j { scheduled = true })))
            js
    arrived [] = tt
    arrived (j ∷ js) = ((λ y. unfold copy_job in ground arith), arrived js)

shift-IsAccounted : (s : Sim) → IsAccounted s → IsAccounted (shift s)
unfolding shift
shift-IsAccounted s v = record {
  queue = All-shift_job_queue (Accounts s.sim_time) (λ b j a. a) s.job_queue v.queue;
  ordered = v.ordered;
  sorted = v.sorted;
}

finish_job-IsAccounted :
    (j : Job) (s : Sim)
    → Accounts s.sim_time j
    → j.last_run ≡ some s.sim_time
    → IsAccounted s
    → IsAccounted (finish_job j s)
unfolding finish_job add_stats
finish_job-IsAccounted j s a ended v = elim (Bool-cases (j.length == 0)) [
  | inl y ↦
      let times = job_stats_times s.sim_time j a ended (ground arith) in
      rw y (record {
        queue = All-remove_finished_jobs (Accounts s.sim_time) s.job_queue v.queue;
        ordered =
            All-insert_stats_sorted Ordered (job_stats s.sim_time j) s.metrics.stats
              (times.1, omega arith) v.ordered;
        sorted = (insert_stats_sorted-IsSorted s.metrics.stats (job_stats s.sim_time j) v.sorted).0;
      })
  | inr y ↦ rw y v
]

All-get_elem? :
    (P : Job → Type 0) (q : List Job) (i : ℕ) (j : Job) → All P q → get_elem? q i ≡ some j → P j
All-get_elem? P [] i j h e = cc
All-get_elem? P (x ∷ q) zero j h e = subst P (ground arith) h.0
All-get_elem? P (x ∷ q) (suc i) j h e = All-get_elem? P q i j h.1 e

run_at-IsAccounted :
    (timeslice i : ℕ) (j : Job) (s : Sim)
    → get_elem? s.job_queue i ≡ some j
    → IsAccounted s
    → IsAccounted (run_at timeslice i j s)
unfolding run_at
run_at-IsAccounted timeslice i j s at v =
    let j' : Job = run_job timeslice s.sim_time j in
    let t' : ℕ = s.sim_time + runtime timeslice j in
    let ran : Accounts t' j' =
      run_job-Accounts timeslice s.sim_time j
        (All-get_elem? (Accounts s.sim_time) s.job_queue i j v.queue at) in
    let later : All (Accounts t') s.job_queue =
      All-mono (Accounts s.sim_time) (Accounts t') s.job_queue
        (Accounts-mono s.sim_time t' (omega arith)) v.queue in
    let s' : Sim = record s {
      sim_time = t';
      job_queue = set s.job_queue i j';
      trace =
          s.trace
          ++ (record {
            time = s.sim_time;
            job = j.id;
            arrived = j.arrival_time;
            ran_for = runtime timeslice j;
          }
              ∷ []);
    } in
    let v' : IsAccounted s' = record {
      queue = All-set (Accounts t') s.job_queue i j' later ran;
      ordered = v.ordered;
      sorted = v.sorted;
    } in
    finish_job-IsAccounted j' (shift (arrivals s')) ran (run_job_ends timeslice s.sim_time j)
      (shift-IsAccounted (arrivals s') (arrivals-IsAccounted s' v'))

idle-IsAccounted : (s : Sim) → IsAccounted s → IsAccounted (idle s)
unfolding idle
idle-IsAccounted s v =
    let s' : Sim = record s { sim_time = s.sim_time + 1 } in
    arrivals-IsAccounted s' (record {
      queue =
          All-mono (Accounts s.sim_time) (Accounts (s.sim_time + 1)) s.job_queue
            (Accounts-mono s.sim_time (s.sim_time + 1) (omega arith)) v.queue;
      ordered = v.ordered;
      sorted = v.sorted;
    })

-- A round without a job, or with the job that the policy picks.
pub round-none :
    (policy : List Job → Option ℕ) (timeslice : ℕ) (s : Sim)
    → policy s.job_queue ≡ none
    → round policy timeslice s ≡ idle s
unfolding round
round-none policy timeslice s e = ground (arith, e)

pub round-some :
    (policy : List Job → Option ℕ) (timeslice : ℕ) (s : Sim) (i : ℕ) (j : Job)
    → policy s.job_queue ≡ some i
    → get_elem? s.job_queue i ≡ some j
    → round policy timeslice s ≡ run_at timeslice i j s
unfolding round
round-some policy timeslice s i j e at = rw (e, round, at)

round_out :
    (policy : List Job → Option ℕ) (timeslice : ℕ) (s : Sim) (i : ℕ)
    → policy s.job_queue ≡ some i
    → get_elem? s.job_queue i ≡ none
    → round policy timeslice s ≡ idle s
unfolding round
round_out policy timeslice s i e at = rw (e, round, at)

-- A round keeps the accounts, whatever job the policy picks.
pub round-IsAccounted :
    (policy : List Job → Option ℕ) (timeslice : ℕ) (s : Sim)
    → IsAccounted s
    → IsAccounted (round policy timeslice s)
round-IsAccounted policy timeslice s v = elim (Option-cases (policy s.job_queue)) [
  | inl e ↦ subst IsAccounted (sym (round-none policy timeslice s e)) (idle-IsAccounted s v)
  | inr (i, e) ↦ elim (Option-cases (get_elem? s.job_queue i)) [
    | inl at ↦ subst IsAccounted (sym (round_out policy timeslice s i e at)) (idle-IsAccounted s v)
    | inr (j, at) ↦
        subst IsAccounted (sym (round-some policy timeslice s i j e at))
          (run_at-IsAccounted timeslice i j s at v)
  ]
]

run_loop-IsAccounted :
    (fuel : ℕ) (policy : List Job → Option ℕ) (timeslice total : ℕ) (s s' : Sim)
    → IsAccounted s
    → run_loop fuel policy timeslice total s ≡ some s'
    → IsAccounted s'
unfolding run_loop
run_loop-IsAccounted zero policy timeslice total s s' v e = cc
run_loop-IsAccounted (suc fuel) policy timeslice total s s' v e =
    elim (Bool-cases (ltb s.jobs_run total)) [
      | inl y ↦
          run_loop-IsAccounted fuel policy timeslice total (round policy timeslice s) s'
            (round-IsAccounted policy timeslice s v) (ground arith)
      | inr y ↦ subst IsAccounted (ground arith) v
    ]

pub start-IsAccounted :
    (m : Metrics) (jobs : List Job) → m.stats ≡ [] → IsAccounted (start_sim [] m jobs)
unfolding start_sim
start-IsAccounted m jobs e = arrivals-IsAccounted _ (record {
  queue = tt;
  ordered = subst (All Ordered) (sym e) tt;
  sorted = subst IsSorted (sym e) tt;
})

-- Whatever the workload, the time slice and the policy: when the queue's cell held NULL and the simulation ends, the statistics are
-- in order of job number, and each job was first served no later than it stopped waiting, and
-- waited no longer than its turnaround time.
pub handle_run-Ordered :
    (fuel : ℕ) (m : Metrics) (jobs : List Job) (timeslice : ℕ) (p : Policy) (s : Sim)
    → m.stats ≡ []
    → handle_run fuel [] m jobs timeslice p ≡ some s
    → All Ordered s.metrics.stats × IsSorted s.metrics.stats
unfolding handle_run
handle_run-Ordered fuel m jobs timeslice p s no_stats e =
    let v =
      run_loop-IsAccounted fuel (policy_func p) timeslice (count_jobs jobs) (start_sim [] m jobs) s
        (start-IsAccounted m jobs no_stats) e in
    (v.ordered, v.sorted)
