-- ===== src/Scheduling/Jobs.antt =====
-- Jobs and the linked lists of them. A list of jobs is a list; a pointer to a job in the queue is its
-- position. Times and lengths are natural numbers, as the workload files hold them, and -1 in
-- `start_time` and `last_run` is `none`.
pub mod All
pub mod Keys
use wpi_operating_systems.Base.{
  ℕ, zero, suc, ◌+◌, ◌*◌, ◌≤◌, ◌<◌, ◌≡◌, Bool, true, false, Option, none, some, List, [], ◌∷◌, ◌++◌,
  ◌&&◌, not, ltb, leb, ◌==◌, if◌then◌else◌,
}

-- `struct job`
pub record Job : Type 0 where
  pub id : ℕ
  pub arrival_time : ℕ
  pub length : ℕ
  pub scheduled : Bool
  pub next_to_run : Bool
  pub original_length : ℕ
  pub start_time : Option ℕ
  pub wait_time : ℕ
  pub last_run : Option ℕ

unfoldable pub copy_job : Job → Job
copy_job src = record {
  id = src.id;
  arrival_time = src.arrival_time;
  length = src.length;
  scheduled = src.scheduled;
  next_to_run = false;
  original_length = src.length;
  start_time = none;
  wait_time = 0;
  last_run = none;
}

-- The rows (arrival, length) of the workload as jobs with the numbers from `ids` on. `block i` is
-- what the memory of the `i`-th `malloc` holds, which keeps the fields that are not set.
unfoldable pub job_rows : (ℕ → Job) → ℕ → List (ℕ × ℕ) → List Job
job_rows block ids [] = []
job_rows block ids ((arrival, len) ∷ rows) =
    record (block ids) { id = ids; arrival_time = arrival; length = len }
    ∷ job_rows block (ids + 1) rows

-- A file that does not open gives no job. An empty one makes the program write through a pointer
-- that was never set, `none`.
unfoldable pub create_job_queue : (ℕ → Job) → Option (List (ℕ × ℕ)) → Option (List Job)
unfolding job_rows
create_job_queue block none = some []
create_job_queue block (some []) = none
create_job_queue block (some (r ∷ rows)) = some (job_rows block 0 (r ∷ rows))

unfoldable pub count_jobs : List Job → ℕ
count_jobs [] = 0
count_jobs (j ∷ js) = count_jobs js + 1

-- The first job of length 0 leaves the queue; the number of jobs that left.
unfoldable pub remove_finished_jobs : List Job → List Job × ℕ
remove_finished_jobs [] = ([], 0)
remove_finished_jobs (j ∷ js) =
    let (rest, removed) = remove_finished_jobs js in
    if j.length == 0 then (js, 1) else (j ∷ rest, removed)

abbrev pub set_next : Bool → Job → Job
set_next b j = record j { next_to_run = b }

-- The mark moves from the first marked job to the one behind it. `none`: no job is marked.
-- The Boolean says that the marked job was the last.
unfoldable pub move_mark : List Job → Option (List Job × Bool)
move_mark [] = none
move_mark (j ∷ []) = if j.next_to_run then some (set_next false j ∷ [], true) else none
move_mark (j ∷ k ∷ js) =
    let rest = move_mark (k ∷ js) in
    if j.next_to_run
    then some (set_next false j ∷ set_next true k ∷ js, false)
    else elim rest [ none ↦ none | some (r, last) ↦ some (j ∷ r, last) ]

unfoldable pub mark_head : List Job → List Job
mark_head [] = []
mark_head (j ∷ js) = set_next true j ∷ js

unfoldable pub mark_second : List Job → List Job
mark_second [] = []
mark_second (j ∷ []) = j ∷ []
mark_second (j ∷ k ∷ js) = j ∷ set_next true k ∷ js

unfoldable pub shift_job_queue : List Job → List Job
unfolding move_mark mark_head mark_second
shift_job_queue q = elim (move_mark q) [
  | none ↦ mark_second q
  | some (r, last) ↦ if last then mark_head r else r
]

-- a job that `add_new_jobs` takes into the queue
abbrev pub arrives : ℕ → Job → Bool
arrives sim_time j = not j.scheduled && leb j.arrival_time sim_time

-- The copies that go to the end of the queue, and the list of all jobs with them marked.
unfoldable pub new_jobs : ℕ → List Job → List Job × List Job
unfolding copy_job
new_jobs sim_time [] = ([], [])
new_jobs sim_time (j ∷ js) =
    let (added, rest) = new_jobs sim_time js in
    if arrives sim_time j
    then (copy_job (record j { scheduled = true }) ∷ added, record j { scheduled = true } ∷ rest)
    else (added, j ∷ rest)

unfoldable pub add_new_jobs : List Job → List Job → ℕ → List Job × List Job
unfolding new_jobs
add_new_jobs job_queue job_head sim_time =
    let (added, rest) = new_jobs sim_time job_head in (job_queue ++ added, rest)
