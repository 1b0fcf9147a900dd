-- ===== src/Scheduling/Run/Fair.antt =====
-- What every round of the simulation keeps: no job is lost, and each one that is left can run.
use wpi_operating_systems.Base.{
  ℕ, ◌+◌, ◌-◌, ◌≤◌, ◌<◌, ◌≡◌, refl, sym, ap, subst, Bool-cases, inl, inr, List, [], ◌∷◌, ◌++◌, ◌==◌,
  if◌then◌else◌, arith,
}
use wpi_operating_systems.Scheduling.Jobs.{Job, count_jobs, add_new_jobs, new_jobs}
use wpi_operating_systems.Scheduling.Jobs.All.{All, All-append}
use wpi_operating_systems.Scheduling.Jobs.Keys.{
  Key, keys, waiting, total, total-append, keys-append, total-new_jobs, Waits, All-keys-new_jobs,
}
use wpi_operating_systems.Scheduling.Stats.Counted.{finished}
use wpi_operating_systems.Scheduling.Policies.{int_max}
use wpi_operating_systems.Scheduling.Run.{Sim, arrivals, idle}

-- 1 for the job of number `n`
abbrev pub is_id : ℕ → Key → ℕ
is_id n k = if k.id == n then 1 else 0

abbrev pub one : Key → ℕ
one k = 1

abbrev pub left : Key → ℕ
left k = k.left

-- A job that can run: it has some time to run, less than INT_MAX, and arrives by `last`.
abbrev pub Runnable : ℕ → Job → Type 0
Runnable last j = (0 < j.length) × (j.length < int_max) × (j.arrival_time ≤ last)

abbrev pub Short : Key → Type 0
Short k = (0 < k.left) × (k.left < int_max)

-- The jobs are in the queue, still to arrive, or in the statistics, each as often as in the workload.
pub record IsKept (jobs : List Job) (s : Sim) : Type 0 where
  pub each :
      (n : ℕ)
      → total (is_id n) (keys s.job_queue)
          + total (is_id n) (waiting s.job_head)
          + finished n s.metrics.stats
        ≡ total (is_id n) (keys jobs)
  pub all :
      s.jobs_run + total one (keys s.job_queue) + total one (waiting s.job_head) ≡ count_jobs jobs

-- Before the arrivals of a time, and after them.
pub record IsEarly (jobs : List Job) (last : ℕ) (s : Sim) : Type 0 where
  pub short : All Short (keys s.job_queue)
  pub waits : All (Waits (Runnable last)) s.job_head
  pub kept : IsKept jobs s

pub record IsFair (jobs : List Job) (last : ℕ) (s : Sim) : Type 0 where
  pub short : All Short (keys s.job_queue)
  pub waits : All (Waits (λ j. Runnable last j × (s.sim_time < j.arrival_time))) s.job_head
  pub kept : IsKept jobs s

-- What the simulation still has to do.
abbrev pub work : Sim → ℕ
work s = total left (keys s.job_queue) + total left (waiting s.job_head)

abbrev pub measure : ℕ → Sim → ℕ
measure last s = work s + (last - s.sim_time)

pub total-arrivals :
    (w : Key → ℕ) (s : Sim)
    → total w (keys (arrivals s).job_queue) + total w (waiting (arrivals s).job_head)
      ≡ total w (keys s.job_queue) + total w (waiting s.job_head)
unfolding arrivals add_new_jobs
total-arrivals w s =
    let e = ap (total w) (keys-append s.job_queue (new_jobs s.sim_time s.job_head).0) in
    omega (
      arith,
      e,
      total-append w (keys s.job_queue) (keys (new_jobs s.sim_time s.job_head).0),
      total-new_jobs w s.sim_time s.job_head,
    )

pub arrivals-IsKept : (jobs : List Job) (s : Sim) → IsKept jobs s → IsKept jobs (arrivals s)
arrivals-IsKept jobs s k = record {
  each = λ n. omega (arith, total-arrivals (is_id n) s, k.each n, ap (finished n) (stats s));
  all = omega (arith, total-arrivals one s, k.all, run s);
}
  where
    stats : (s : Sim) → (arrivals s).metrics.stats ≡ s.metrics.stats
    stats s = unfold arrivals in refl

    run : (s : Sim) → (arrivals s).jobs_run ≡ s.jobs_run
    run s = unfold arrivals in refl

-- The keys of the jobs that arrive, and what still waits.
pub arrivals_wait :
    (last : ℕ) (s : Sim)
    → All (Waits (Runnable last)) s.job_head
    → All Short (keys (new_jobs s.sim_time s.job_head).0)
      × All (Waits (λ j. Runnable last j × (s.sim_time < j.arrival_time))) (arrivals s).job_head
unfolding arrivals add_new_jobs
arrivals_wait last s w =
    All-keys-new_jobs (Runnable last) Short s.sim_time s.job_head (λ j r. (r.0, r.1)) w

pub keys-arrivals :
    (s : Sim)
    → keys (arrivals s).job_queue ≡ keys s.job_queue ++ keys (new_jobs s.sim_time s.job_head).0
unfolding arrivals add_new_jobs
keys-arrivals s = keys-append s.job_queue (new_jobs s.sim_time s.job_head).0

pub arrivals-IsFair :
    (jobs : List Job) (last : ℕ) (s : Sim) → IsEarly jobs last s → IsFair jobs last (arrivals s)
arrivals-IsFair jobs last s v =
    let (short, wait) = arrivals_wait last s v.waits in
    record {
      short = subst (All Short) (sym (keys-arrivals s)) (
          All-append Short (keys s.job_queue) (keys (new_jobs s.sim_time s.job_head).0) v.short
            short);
      waits = unfold arrivals in wait;
      kept = arrivals-IsKept jobs s v.kept;
    }

pub early-Waits :
    (t last : ℕ) (js : List Job)
    → All (Waits (λ j. Runnable last j × (t < j.arrival_time))) js
    → All (Waits (Runnable last)) js
early-Waits t last [] h = tt
early-Waits t last (j ∷ js) h = ((λ e. (h.0 e).0), early-Waits t last js h.1)

pub work-arrivals : (s : Sim) → work (arrivals s) ≡ work s
work-arrivals s = total-arrivals left s

pub sim_time-arrivals : (s : Sim) → (arrivals s).sim_time ≡ s.sim_time
unfolding arrivals
sim_time-arrivals s = refl

-- A waiting job makes the list of waiting jobs non-empty, and arrives after now.
some_wait :
    (t last : ℕ) (js : List Job)
    → All (Waits (λ j. Runnable last j × (t < j.arrival_time))) js
    → 0 < total one (waiting js)
    → t < last
some_wait t last [] h pos = absurd (omega arith)
some_wait t last (j ∷ js) h pos = elim (Bool-cases j.scheduled) [
  | inl y ↦ some_wait t last js h.1 (ground (arith, y))
  | inr y ↦ let (r, late) = h.0 y in omega arith
]

-- Without a job in the queue time passes, and the last arrival comes nearer.
pub idle-IsFair :
    (jobs : List Job) (last : ℕ) (s : Sim)
    → IsFair jobs last s
    → s.job_queue ≡ []
    → s.jobs_run < count_jobs jobs
    → IsFair jobs last (idle s) × (measure last (idle s) < measure last s)
unfolding idle
idle-IsFair jobs last s v empty more =
    let s' : Sim = record s { sim_time = s.sim_time + 1 } in
    let none_queued : total one (keys s.job_queue) ≡ 0 = ap (λ q. total one (keys q)) empty in
    let before : s.sim_time < last =
      some_wait s.sim_time last s.job_head v.waits (omega (arith, v.kept.all)) in
    (
      arrivals-IsFair jobs last s' (record {
        short = v.short;
        waits = early-Waits s.sim_time last s.job_head v.waits;
        kept = record { each = v.kept.each; all = v.kept.all };
      }),
      omega (arith, work-arrivals s', sim_time-arrivals s'),
    )
