-- ===== src/Scheduling/Stats/Counted.antt =====
-- How often a job has statistics.
use wpi_operating_systems.Base.{
  ℕ, ◌+◌, ◌≡◌, Bool-cases, inl, inr, List, [], ◌∷◌, ltb, ◌==◌, if◌then◌else◌, arith,
}
use wpi_operating_systems.Scheduling.Stats.{JobStats, insert_behind, insert_stats_sorted}

-- How often the job of number `n` has statistics.
abbrev pub finished : ℕ → List JobStats → ℕ
finished n [] = 0
finished n (s ∷ r) = (if s.id == n then 1 else 0) + finished n r

finished-insert_behind :
    (n : ℕ) (s : JobStats) (xs : List JobStats)
    → finished n (insert_behind s xs) ≡ finished n (s ∷ xs)
unfolding insert_behind
finished-insert_behind n s [] = omega arith
finished-insert_behind n s (x ∷ xs) = elim (Bool-cases (ltb x.id s.id)) [
  | inl y ↦ rw y (omega (arith, finished-insert_behind n s xs))
  | inr y ↦ rw y (omega arith)
]

pub finished-insert_stats_sorted :
    (n : ℕ) (xs : List JobStats) (s : JobStats)
    → finished n (insert_stats_sorted xs s) ≡ finished n (s ∷ xs)
unfolding insert_stats_sorted
finished-insert_stats_sorted n [] s = omega arith
finished-insert_stats_sorted n (x ∷ xs) s = elim (Bool-cases (ltb s.id x.id)) [
  | inl y ↦ rw y (omega arith)
  | inr y ↦ rw y (omega (arith, finished-insert_behind n s xs))
]
