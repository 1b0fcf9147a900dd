-- ===== src/Scheduling/Stats/Sorted.antt =====
-- The statistics stay in order of job number, and none is lost.
use mathlib.Core.List.{Perm}
use mathlib.Core.List.Perm
use wpi_operating_systems.Base.{◌≤◌, Bool-cases, inl, inr, List, [], ◌∷◌, ltb, arith}
use wpi_operating_systems.Scheduling.Jobs.All.{All, All-mono}
use wpi_operating_systems.Scheduling.Stats.{JobStats, insert_behind, insert_stats_sorted}

-- in order of job number
abbrev pub IsSorted : List JobStats → Type 0
IsSorted [] = Unit {0}
IsSorted (x ∷ xs) = All (λ y. x.id ≤ y.id) xs × IsSorted xs

All-insert_behind :
    (P : JobStats → Type 0) (s : JobStats) (xs : List JobStats)
    → P s
    → All P xs
    → All P (insert_behind s xs)
unfolding insert_behind
All-insert_behind P s [] p h = (p, tt)
All-insert_behind P s (n ∷ xs) p h = elim (Bool-cases (ltb n.id s.id)) [
  | inl y ↦ rw y (h.0, All-insert_behind P s xs p h.1)
  | inr y ↦ rw y (p, h)
]

insert_behind-IsSorted :
    (s : JobStats) (xs : List JobStats) → IsSorted xs → IsSorted (insert_behind s xs)
unfolding insert_behind
insert_behind-IsSorted s [] h = (tt, tt)
insert_behind-IsSorted s (n ∷ xs) h = elim (Bool-cases (ltb n.id s.id)) [
  | inl y ↦ rw y (
    All-insert_behind (λ z. n.id ≤ z.id) s xs (ground arith) h.0,
    insert_behind-IsSorted s xs h.1,
  )
  | inr y ↦
      let le : s.id ≤ n.id = ground arith in
      rw y ((le, All-mono (λ z. n.id ≤ z.id) (λ z. s.id ≤ z.id) xs (λ z l. omega arith) h.0), h)
]

insert_behind-Perm : (s : JobStats) (xs : List JobStats) → Perm (insert_behind s xs) (s ∷ xs)
unfolding insert_behind
insert_behind-Perm s [] = Perm.refl (s ∷ [])
insert_behind-Perm s (n ∷ xs) = elim (Bool-cases (ltb n.id s.id)) [
  | inl y ↦ rw y (Perm.trans (Perm.cons n (insert_behind-Perm s xs)) (Perm.swap s n xs))
  | inr y ↦ rw y (Perm.refl (s ∷ n ∷ xs))
]

-- Insertion into a sorted list of statistics gives a sorted list of the same statistics and the new
-- one.
pub insert_stats_sorted-IsSorted :
    (xs : List JobStats) (s : JobStats)
    → IsSorted xs
    → IsSorted (insert_stats_sorted xs s) × Perm (insert_stats_sorted xs s) (s ∷ xs)
unfolding insert_stats_sorted
insert_stats_sorted-IsSorted [] s h = ((tt, tt), Perm.refl (s ∷ []))
insert_stats_sorted-IsSorted (x ∷ xs) s h = elim (Bool-cases (ltb s.id x.id)) [
  | inl y ↦
      let le : s.id ≤ x.id = ground arith in
      rw y (
        ((le, All-mono (λ z. x.id ≤ z.id) (λ z. s.id ≤ z.id) xs (λ z l. omega arith) h.0), h),
        Perm.refl (s ∷ x ∷ xs),
      )
  | inr y ↦
      let le : x.id ≤ s.id = ground arith in
      rw y (
        (All-insert_behind (λ z. x.id ≤ z.id) s xs le h.0, insert_behind-IsSorted s xs h.1),
        Perm.trans (Perm.cons x (insert_behind-Perm s xs)) (Perm.swap s x xs),
      )
]

pub All-insert_stats_sorted :
    (P : JobStats → Type 0) (s : JobStats) (xs : List JobStats)
    → P s
    → All P xs
    → All P (insert_stats_sorted xs s)
unfolding insert_stats_sorted
All-insert_stats_sorted P s [] p h = (p, tt)
All-insert_stats_sorted P s (x ∷ xs) p h = elim (Bool-cases (ltb s.id x.id)) [
  | inl y ↦ rw y (p, h)
  | inr y ↦ rw y (h.0, All-insert_behind P s xs p h.1)
]
