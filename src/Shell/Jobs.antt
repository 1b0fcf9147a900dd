-- ===== src/Shell/Jobs.antt =====
-- The background jobs: five arrays of 255 entries are one list of slots here.
pub mod Table
pub mod Ids
use wpi_operating_systems.Base.{
  ℕ, ◌+◌, ◌-◌, ℤ, pos, negsuc, Bool, true, false, List, [], ◌∷◌, ◌++◌, ◌&&◌, ltb, ◌==◌, Option,
  none, some, if◌then◌else◌, replicate, take,
}
use wpi_operating_systems.Shell.Text.{Text}

-- `backJobIds[i]`, `backPids[i]`, `backCommands[i]` and `backRunning[i]`
pub record Slot : Type 0 where
  pub id : ℕ
  pub pid : ℤ
  pub command : Text
  pub running : Bool

pub record Jobs : Type 0 where
  pub slots : List Slot
  pub next_job_id : ℕ
  pub active_jobs : ℕ

-- What the shell prints and does to other processes.
pub data Event : Type 0 where
  prompt : Text → Event
  text : Text → Event
  started : ℕ → Event
  finished : ℕ → Text → Event
  listed : ℕ → Text → Event
  no_such_job : ℤ → Event
  too_many_arguments : Event
  no_such_directory : Text → Event
  fork_failed : Event
  signal : ℤ → Event
  foreground : List Text → Event
  background : List Text → Event
  piped : List Text → List Text → Event
  redirected : List Text → Option Text → Bool → Event

abbrev pub free_slot : Slot
free_slot = record { id = 0; pid = pos 0; command = []; running = false }

abbrev pub no_jobs : Jobs
no_jobs = record { slots = replicate 255 free_slot; next_job_id = 0; active_jobs = 0 }

abbrev pub is_number : ℤ → ℕ → Bool
is_number (pos n) k = n == k
is_number (negsuc n) k = false

unfoldable pub find_available_job_id : ℕ → ℕ
find_available_job_id next = if ltb 255 (next + 1) then 1 else next + 1

-- The first slot that is free takes the job; the Boolean says whether there is one.
unfoldable pub place_job : Slot → List Slot → List Slot × Bool
place_job job [] = ([], false)
place_job job (s ∷ slots) =
    let (rest, placed) = place_job job slots in
    if s.running then (s ∷ rest, placed) else (job ∷ slots, true)

unfoldable pub add_background_job : ℤ → Text → Jobs → Jobs × List Event
add_background_job pid cmd t =
    let job_id = find_available_job_id t.next_job_id in
    let job : Slot = record { id = job_id; pid = pid; command = take 127 cmd; running = true } in
    let (slots, placed) = place_job job t.slots in
    if placed
    then (
      record { slots = slots; next_job_id = job_id; active_jobs = t.active_jobs + 1 },
      started job_id ∷ [],
    )
    else (record t { next_job_id = job_id }, [])

-- The first running job that passes the test stops.
unfoldable pub stop_first : (Slot → Bool) → List Slot → List Slot × Option Slot
stop_first test [] = ([], none)
stop_first test (s ∷ slots) =
    let (rest, found) = stop_first test slots in
    if s.running && test s
    then (record s { running = false } ∷ slots, some s)
    else (s ∷ rest, found)

-- One child that `waitpid` returned.
unfoldable pub reap : ℕ → Jobs → Jobs × List Event
reap pid t =
    let (slots, found) = stop_first (λ s. is_number s.pid pid) t.slots in
    elim found [
      | none ↦ (t, [])
      | some s ↦ (
        record t { slots = slots; active_jobs = t.active_jobs - 1 },
        finished s.id s.command ∷ [],
      )
    ]

-- `pids` are the answers of `waitpid` until one is not positive.
unfoldable pub check_background_jobs : List ℕ → Jobs → Jobs × List Event
check_background_jobs [] t = (t, [])
check_background_jobs (pid ∷ pids) t =
    let (u, out) = reap pid t in let (v, more) = check_background_jobs pids u in (v, out ++ more)

-- The built-in `kill`.
unfoldable pub kill_job : ℤ → Jobs → Jobs × List Event
kill_job job_id t =
    let (slots, found) = stop_first (λ s. is_number job_id s.id) t.slots in
    elim found [
      | none ↦ (t, no_such_job job_id ∷ [])
      | some s ↦ (record t { slots = slots }, signal s.pid ∷ [])
    ]

-- The built-in `jobs`.
unfoldable pub list_jobs : List Slot → List Event
list_jobs [] = []
list_jobs (s ∷ slots) =
    let rest = list_jobs slots in if s.running then listed s.id s.command ∷ rest else rest
