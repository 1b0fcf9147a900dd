-- ===== src/Shell/Jobs/Ids.antt =====
-- Job numbers are unique until they are used again, and two jobs can have the same one after that.
use wpi_operating_systems.Base.{
  ℕ, suc, ◌-◌, ℤ, ◌≤◌, ◌<◌, ◌≡◌, refl, ◌∙◌, Bool, true, Bool-cases, Option, none, some, inl, inr,
  List, [], ◌∷◌, arith, length, take,
}
use wpi_operating_systems.Shell.Text.{Text}
use wpi_operating_systems.Shell.Jobs.{
  Slot, Jobs, Event, no_jobs, is_number, find_available_job_id, place_job, add_background_job,
  stop_first, reap, check_background_jobs, kill_job, finished, no_such_job, signal,
}
use wpi_operating_systems.Shell.Jobs.Table.{
  number, has_id, is_any, number-place_job, length-place_job, place_job_free, Stopped,
  stop_first-Stopped,
}

-- What the shell does to the table; the number is that of the jobs that were added.
pub data Reach : ℕ → Jobs → Type 0 where
  empty : Reach 0 no_jobs
  added :
      {n : ℕ} {t : Jobs} (pid : ℤ) (cmd : Text)
      → Reach n t
      → Reach (suc n) (add_background_job pid cmd t).0
  checked :
      {n : ℕ} {t : Jobs} (pids : List ℕ) → Reach n t → Reach n (check_background_jobs pids t).0
  killed : {n : ℕ} {t : Jobs} (id : ℤ) → Reach n t → Reach n (kill_job id t).0

-- No two running jobs have the same number, the numbers are those that were given out, and
-- `activeJobs` counts every running job.
pub record IsTable (n : ℕ) (t : Jobs) : Type 0 where
  pub size : length t.slots ≡ 255
  pub given : t.next_job_id ≡ n
  pub unique : (k : ℕ) → number (has_id k) t.slots ≤ 1
  pub fresh : (k : ℕ) → n < k → number (has_id k) t.slots ≡ 0
  pub counted : number is_any t.slots ≤ t.active_jobs

no_jobs-IsTable : IsTable 0 no_jobs
no_jobs-IsTable = record {
  size = refl;
  given = refl;
  unique = λ k. omega arith;
  fresh = λ k h. refl;
  counted = omega arith;
}

-- the job that `add_background_job` places
abbrev pub job_of : ℤ → Text → Jobs → Slot
job_of pid cmd t = record {
  id = find_available_job_id t.next_job_id;
  pid = pid;
  command = take 127 cmd;
  running = true;
}

added-IsTable :
    (n : ℕ) (t : Jobs) (pid : ℤ) (cmd : Text)
    → IsTable n t
    → n < 255
    → IsTable (suc n) (add_background_job pid cmd t).0
unfolding add_background_job
added-IsTable n t pid cmd h few =
    let job : Slot = job_of pid cmd t in
    let id : find_available_job_id t.next_job_id ≡ suc n =
      unfold find_available_job_id in ground (arith, h.given) in
    let placed = λ (p : Slot → Bool). number-place_job p job t.slots refl in
    elim (Bool-cases (place_job job t.slots).1) [
      | inl y ↦ rw y (record {
        size = length-place_job job t.slots ∙ h.size;
        given = id;
        unique = λ k. ground (arith, placed (has_id k), h.unique k, h.fresh k, id, y);
        fresh = λ k below. ground (arith, placed (has_id k), h.fresh k, id, y);
        counted = ground (arith, placed is_any, h.counted, y);
      })
      | inr y ↦ rw y (record {
        size = h.size;
        given = id;
        unique = h.unique;
        fresh = λ k below. h.fresh k (omega arith);
        counted = h.counted;
      })
    ]

-- A running job that stops.
Stopped-IsTable :
    (n : ℕ) (t u : Jobs) (test : Slot → Bool) (s : Slot)
    → IsTable n t
    → u.next_job_id ≡ t.next_job_id
    → t.active_jobs - 1 ≤ u.active_jobs
    → Stopped test t.slots (u.slots, some s)
    → IsTable n u
Stopped-IsTable n t u test s h same active (run, passes, size, left) = record {
  size = size ∙ h.size;
  given = same ∙ h.given;
  unique = λ k. omega (arith, left (has_id k), h.unique k);
  fresh = λ k below. omega (arith, left (has_id k), h.fresh k below);
  counted = omega (arith, left is_any, h.counted);
}

reap-IsTable : (n pid : ℕ) (t : Jobs) → IsTable n t → IsTable n (reap pid t).0
unfolding reap
reap-IsTable n pid t h = go (stop_first test t.slots) (stop_first-Stopped test t.slots)
  where
    test : Slot → Bool
    test = λ s. is_number s.pid pid

    step : List Slot × Option Slot → Jobs × List Event
    step r = elim r.1 [
      | none ↦ (t, [])
      | some s ↦
          (record t { slots = r.0; active_jobs = t.active_jobs - 1 }, finished s.id s.command ∷ [])
    ]

    go : (r : List Slot × Option Slot) → Stopped test t.slots r → IsTable n (step r).0
    go (rest, none) st = h
    go (rest, some s) st =
        Stopped-IsTable n t (record t { slots = rest; active_jobs = t.active_jobs - 1 }) test s h
          refl (omega arith) st

check-IsTable :
    (n : ℕ) (pids : List ℕ) (t : Jobs) → IsTable n t → IsTable n (check_background_jobs pids t).0
unfolding check_background_jobs
check-IsTable n [] t h = h
check-IsTable n (pid ∷ pids) t h = check-IsTable n pids (reap pid t).0 (reap-IsTable n pid t h)

kill-IsTable : (n : ℕ) (id : ℤ) (t : Jobs) → IsTable n t → IsTable n (kill_job id t).0
unfolding kill_job
kill-IsTable n id t h = go (stop_first test t.slots) (stop_first-Stopped test t.slots)
  where
    test : Slot → Bool
    test = λ s. is_number id s.id

    step : List Slot × Option Slot → Jobs × List Event
    step r = elim r.1 [
      | none ↦ (t, no_such_job id ∷ [])
      | some s ↦ (record t { slots = r.0 }, signal s.pid ∷ [])
    ]

    go : (r : List Slot × Option Slot) → Stopped test t.slots r → IsTable n (step r).0
    go (rest, none) st = h
    go (rest, some s) st =
        Stopped-IsTable n t (record t { slots = rest }) test s h refl (omega arith) st

-- Until more than 255 background jobs have been started no two running jobs have the same number,
-- whatever was checked and killed in between, and `activeJobs` is never less than the number of
-- running jobs.
pub Reach-IsTable : (n : ℕ) (t : Jobs) → Reach n t → n ≤ 255 → IsTable n t
Reach-IsTable n t empty few = no_jobs-IsTable
Reach-IsTable n t (added pid cmd r) few =
    added-IsTable _ _ pid cmd (Reach-IsTable _ _ r (omega arith)) (omega arith)
Reach-IsTable n t (checked pids r) few = check-IsTable n pids _ (Reach-IsTable n _ r few)
Reach-IsTable n t (killed id r) few = kill-IsTable n id _ (Reach-IsTable n _ r few)

-- The job behind the one with the number 255 gets the number 1, also where a job with the number 1 is
-- still running: then two running jobs have that number.
add_background_job_again :
    (pid : ℤ) (cmd : Text) (t : Jobs)
    → t.next_job_id ≡ 255
    → number is_any t.slots < length t.slots
    → 0 < number (has_id 1) t.slots
    → 1 < number (has_id 1) (add_background_job pid cmd t).0.slots
unfolding add_background_job
add_background_job_again pid cmd t last free one =
    let job : Slot = job_of pid cmd t in
    let id : find_available_job_id t.next_job_id ≡ 1 =
      unfold find_available_job_id in ground (arith, last) in
    let y = place_job_free job t.slots free in
    rw y (ground (arith, number-place_job (has_id 1) job t.slots refl, id, y))
