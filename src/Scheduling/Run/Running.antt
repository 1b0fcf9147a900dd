-- ===== src/Scheduling/Run/Running.antt =====
-- What a round does to a fair state when it runs a job.
use wpi_operating_systems.Base.{
  ℕ, ◌+◌, ◌≤◌, ◌<◌, ◌≡◌, refl, sym, ap, subst, ◌∙◌, true, false, some, List, [], ◌∷◌, ◌++◌, ◌==◌,
  if◌then◌else◌, arith, get_elem?, set,
}
use wpi_operating_systems.Scheduling.Jobs.{Job, new_jobs, remove_finished_jobs}
use wpi_operating_systems.Scheduling.Jobs.All.{All, All-append, All-mono, All-set}
use wpi_operating_systems.Scheduling.Jobs.Keys.{
  Key, key, keys, waiting, total, drop_done, keys-set, get_elem?-keys, keys-remove_finished_jobs,
  keys-shift_job_queue, total-set, OneDone, OneDone-set, OneDone-append, OneDone-drop_done,
  All-drop_done, Waits,
}
use wpi_operating_systems.Scheduling.Stats.Counted.{finished, finished-insert_stats_sorted}
use wpi_operating_systems.Scheduling.Policies.{int_max}
use wpi_operating_systems.Scheduling.Run.{
  Sim, runtime, job_stats, add_stats, arrivals, finish_job, shift,
}
use wpi_operating_systems.Scheduling.Run.Fair.{
  is_id, one, left, Runnable, Short, IsKept, IsEarly, IsFair, work, total-arrivals, arrivals_wait,
  keys-arrivals, early-Waits, sim_time-arrivals,
}

pub runtime_bounds :
    (timeslice : ℕ) (j : Job)
    → 0 < j.length
    → (0 < runtime timeslice j) × (runtime timeslice j ≤ j.length)
unfolding runtime
runtime_bounds timeslice j h = ground arith

pub finish_job_more : (j : Job) (s : Sim) → 0 < j.length → finish_job j s ≡ s
unfolding finish_job
finish_job_more j s h = let test : (j.length == 0) ≡ false = ground arith in rw test refl

pub finish_job_done :
    (j : Job) (s : Sim)
    → j.length ≡ 0
    → finish_job j s ≡ record s {
      jobs_run = s.jobs_run + 1;
      job_queue = (remove_finished_jobs s.job_queue).0;
      metrics = add_stats s.metrics (job_stats s.sim_time j);
    }
unfolding finish_job
finish_job_done j s h = let test : (j.length == 0) ≡ true = ground arith in rw test refl

pub shift-IsFair :
    (jobs : List Job) (last : ℕ) (s : Sim) → IsFair jobs last s → IsFair jobs last (shift s)
unfolding shift
shift-IsFair jobs last s v =
    let same = keys-shift_job_queue s.job_queue in
    record {
      short = subst (All Short) (sym same) v.short;
      waits = v.waits;
      kept = record {
        each = λ n. omega (arith, ap (total (is_id n)) same, v.kept.each n);
        all = omega (arith, ap (total one) same, v.kept.all);
      };
    }

pub work-shift : (s : Sim) → work (shift s) ≡ work s
unfolding shift
work-shift s = omega (arith, ap (total left) (keys-shift_job_queue s.job_queue))

pub sim_time-shift : (s : Sim) → (shift s).sim_time ≡ s.sim_time
unfolding shift
sim_time-shift s = refl

-- A job `j` at position `i` of the queue of a fair state is replaced by `j'`, which has less to run.
module _ (jobs : List Job) (last : ℕ) (s : Sim) (v : IsFair jobs last s) (i : ℕ) (j j' : Job)
    (at : get_elem? s.job_queue i ≡ some j) (same_id : j'.id ≡ j.id) (s' : Sim)
    (queue : s'.job_queue ≡ set s.job_queue i j') (head : s'.job_head ≡ s.job_head)
    (stats : s'.metrics.stats ≡ s.metrics.stats) (run : s'.jobs_run ≡ s.jobs_run) where
  set_queue : keys s'.job_queue ≡ set (keys s.job_queue) i (key j')
  set_queue = ap keys queue ∙ keys-set s.job_queue i j'

  pub total_replaced :
      (w : Key → ℕ)
      → total w (keys s'.job_queue) + w (key j) ≡ total w (keys s.job_queue) + w (key j')
  total_replaced w =
      let e = ap (total w) set_queue in
      let f =
        total-set w (keys s.job_queue) i (key j) (key j') (get_elem?-keys s.job_queue i j at) in
      omega arith

  still-IsKept : IsKept jobs s'
  still-IsKept = record {
    each = λ n.
        let same : is_id n (key j') ≡ is_id n (key j) = ap (λ k. if k == n then 1 else 0) same_id in
        omega (
          arith,
          total_replaced (is_id n),
          v.kept.each n,
          ap (finished n) stats,
          ap (λ h. total (is_id n) (waiting h)) head,
        );
    all = omega (arith, total_replaced one, v.kept.all, run, ap (λ h. total one (waiting h)) head);
  }

  still-Waits : All (Waits (Runnable last)) s'.job_head
  still-Waits =
      subst (All (Waits (Runnable last))) (sym head)
        (early-Waits s.sim_time last s.job_head v.waits)

  -- It is not done yet.
  pub replaced-IsEarly : 0 < j'.length → j'.length < int_max → IsEarly jobs last s'
  replaced-IsEarly more small = record {
    short =
        subst (All Short) (sym set_queue)
          (All-set Short (keys s.job_queue) i (key j') v.short (more, small));
    waits = still-Waits;
    kept = still-IsKept;
  }

  a : Sim
  a = shift (arrivals s')

  added : List Key
  added = keys (new_jobs s'.sim_time s'.job_head).0

  keys-a : keys a.job_queue ≡ set (keys s.job_queue) i (key j') ++ added
  unfolding a added shift
  keys-a =
      keys-shift_job_queue (arrivals s').job_queue
      ∙ keys-arrivals s'
      ∙ ap (λ q. q ++ added) set_queue

  total-a :
      (w : Key → ℕ)
      → total w (keys a.job_queue) + total w (waiting a.job_head)
        ≡ total w (keys s'.job_queue) + total w (waiting s'.job_head)
  unfolding a shift
  total-a w =
      omega
        (arith, ap (total w) (keys-shift_job_queue (arrivals s').job_queue), total-arrivals w s')

  -- The job is done: its statistics are taken, and it leaves the queue.
  after_done : Sim
  unfolding a
  after_done = record a {
    jobs_run = a.jobs_run + 1;
    job_queue = (remove_finished_jobs a.job_queue).0;
    metrics = add_stats a.metrics (job_stats a.sim_time j');
  }

  module _ (done : j'.length ≡ 0) where
    one_done : OneDone (key j') (keys a.job_queue)
    unfolding added
    one_done = subst (OneDone (key j')) (sym keys-a) (
        OneDone-append (key j') (set (keys s.job_queue) i (key j')) added
          (OneDone-set (keys s.job_queue) i (key j) (key j')
            (All-mono Short (λ k. 0 < k.left) (keys s.job_queue) (λ k h. h.0) v.short)
            (get_elem?-keys s.job_queue i j at) done)
          (All-mono Short (λ k. 0 < k.left) added (λ k h. h.0)
            (arrivals_wait last s' still-Waits).0))

    small-All : All (λ k. k.left < int_max) (keys a.job_queue)
    unfolding added
    small-All = subst (All (λ k. k.left < int_max)) (sym keys-a) (
        All-append (λ k. k.left < int_max) (set (keys s.job_queue) i (key j')) added
          (All-set (λ k. k.left < int_max) (keys s.job_queue) i (key j')
            (All-mono Short (λ k. k.left < int_max) (keys s.job_queue) (λ k h. h.1) v.short)
            (omega arith))
          (All-mono Short (λ k. k.left < int_max) added (λ k h. h.1)
            (arrivals_wait last s' still-Waits).0))

    All-Short : All Short (drop_done (keys a.job_queue))
    All-Short =
        both (drop_done (keys a.job_queue))
          (OneDone-drop_done (key j') (keys a.job_queue) one_done).0
          (All-drop_done (λ k. k.left < int_max) (keys a.job_queue) small-All)
      where
        both :
            (ks : List Key)
            → All (λ k. 0 < k.left) ks
            → All (λ k. k.left < int_max) ks
            → All Short ks
        both [] p q = tt
        both (k ∷ ks) p q = ((p.0, q.0), both ks p.1 q.1)

    total_dropped :
        (w : Key → ℕ)
        → total w (keys (remove_finished_jobs a.job_queue).0) + w (key j')
          ≡ total w (keys a.job_queue)
    total_dropped w = omega (
      arith,
      ap (total w) (keys-remove_finished_jobs a.job_queue),
      (OneDone-drop_done (key j') (keys a.job_queue) one_done).1 w,
    )

    finished-after :
        (n : ℕ)
        → finished n after_done.metrics.stats ≡ is_id n (key j') + finished n s.metrics.stats
    unfolding after_done a add_stats job_stats shift arrivals
    finished-after n =
        finished-insert_stats_sorted n s'.metrics.stats (job_stats a.sim_time j')
        ∙ ap (λ r. is_id n (key j') + finished n r) stats

    run-after : after_done.jobs_run ≡ s.jobs_run + 1
    unfolding after_done a shift arrivals
    run-after = ap (λ k. k + 1) run

    after-Waits :
        All
          (Waits (λ k. Runnable last k × (after_done.sim_time < k.arrival_time)))
          after_done.job_head
    unfolding after_done a shift
    after-Waits =
        subst
          (λ t. All (Waits (λ k. Runnable last k × (t < k.arrival_time))) (arrivals s').job_head)
          (sym (sim_time-arrivals s')) (arrivals_wait last s' still-Waits).1

    after_done-IsFair : IsFair jobs last after_done
    unfolding after_done
    after_done-IsFair = record {
      short = subst (All Short) (sym (keys-remove_finished_jobs a.job_queue)) All-Short;
      waits = after-Waits;
      kept = record {
        each = λ n. omega (
          arith,
          total_dropped (is_id n),
          total-a (is_id n),
          still-IsKept.each n,
          finished-after n,
          ap (finished n) stats,
        );
        all = omega (arith, total_dropped one, total-a one, still-IsKept.all, run-after, run);
      };
    }

    work-after : work after_done ≡ work s'
    unfolding after_done
    work-after = omega (arith, total_dropped left, total-a left)

    sim_time-after : after_done.sim_time ≡ s'.sim_time
    unfolding after_done a shift arrivals
    sim_time-after = refl

    finish-after : finish_job j' (shift (arrivals s')) ≡ after_done
    unfolding after_done a
    finish-after = finish_job_done j' (shift (arrivals s')) done

    pub finish_job-IsFair :
        IsFair jobs last (finish_job j' (shift (arrivals s')))
        × (work (finish_job j' (shift (arrivals s'))) ≡ work s')
        × ((finish_job j' (shift (arrivals s'))).sim_time ≡ s'.sim_time)
    finish_job-IsFair =
        subst (λ t. IsFair jobs last t × (work t ≡ work s') × (t.sim_time ≡ s'.sim_time))
          (sym finish-after) (after_done-IsFair, work-after, sim_time-after)
