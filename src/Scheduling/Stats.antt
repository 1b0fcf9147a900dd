-- ===== src/Scheduling/Stats.antt =====
-- The statistics of finished jobs, kept in order of job number.
pub mod Sorted
pub mod Counted
use wpi_operating_systems.Base.{ℕ, ◌+◌, ◌≤◌, ◌<◌, ◌≡◌, List, [], ◌∷◌, ltb, if◌then◌else◌}

-- `struct job_stats`
pub record JobStats : Type 0 where
  pub id : ℕ
  pub response_time : ℕ
  pub turnaround_time : ℕ
  pub wait_time : ℕ

-- The walk from `current` on: the list behind it.
insert_behind : JobStats → List JobStats → List JobStats
insert_behind s [] = s ∷ []
insert_behind s (n ∷ rest) = if ltb n.id s.id then n ∷ insert_behind s rest else s ∷ n ∷ rest

unfoldable pub insert_stats_sorted : List JobStats → JobStats → List JobStats
unfolding insert_behind
insert_stats_sorted [] s = s ∷ []
insert_stats_sorted (h ∷ rest) s = if ltb s.id h.id then s ∷ h ∷ rest else h ∷ insert_behind s rest
