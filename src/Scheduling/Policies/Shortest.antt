-- ===== src/Scheduling/Policies/Shortest.antt =====
-- SJF runs a job of the least length, the first of them in the queue.
use wpi_operating_systems.Base.{
  ℕ, suc, ◌+◌, ◌≤◌, ◌<◌, ◌≡◌, refl, ◌∙◌, ap, ◌⊎◌, Bool-cases, inl, inr, Option, none, some, List,
  [], ◌∷◌, ltb, arith, get_elem?, take,
}
use wpi_operating_systems.Scheduling.Jobs.{Job}
use wpi_operating_systems.Scheduling.Jobs.All.{All}
use wpi_operating_systems.Scheduling.Policies.{int_max, sjf_loop, handler_sjf, policy_func, sjf}

-- The job at position `k` is no longer than any, and shorter than all before it.
abbrev pub IsShortest : List Job → ℕ → Job → Type 0
IsShortest q k j =
    (get_elem? q k ≡ some j)
    × All (λ x. j.length ≤ x.length) q
    × All (λ x. j.length < x.length) (take k q)

-- The choice before the loop stands, or a shorter job replaced it.
abbrev Chosen : ℕ → Option ℕ → ℕ → List Job → Option ℕ → Type 0
Chosen shortest chosen i q r =
    ((r ≡ chosen) × All (λ x. shortest ≤ x.length) q)
    ⊎ ((k : ℕ) × (j : Job) × (r ≡ some (i + k)) × (j.length < shortest) × IsShortest q k j)

sjf_loop-Chosen :
    (shortest : ℕ) (chosen : Option ℕ) (i : ℕ) (q : List Job)
    → Chosen shortest chosen i q (sjf_loop shortest chosen i q)
unfolding sjf_loop
sjf_loop-Chosen shortest chosen i [] = inl (refl, tt)
sjf_loop-Chosen shortest chosen i (j ∷ js) = elim (Bool-cases (ltb j.length shortest)) [
  | inl y ↦
      let less : j.length < shortest = ground arith in
      rw y (elim (sjf_loop-Chosen j.length (some i) (i + 1) js) [
        | inl (e, all) ↦ inr (0, j, e ∙ ap some (omega arith), less, (refl, (omega arith, all), tt))
        | inr (k, x, e, short, (at, all, before)) ↦ inr (
          suc k,
          x,
          e ∙ ap some (omega arith),
          omega arith,
          (at, (omega arith, all), (short, before)),
        )
      ])
  | inr y ↦
      let more : shortest ≤ j.length = ground arith in
      rw y (elim (sjf_loop-Chosen shortest chosen (i + 1) js) [
        | inl (e, all) ↦ inl (e, (more, all))
        | inr (k, x, e, short, (at, all, before)) ↦ inr (
          suc k,
          x,
          e ∙ ap some (omega arith),
          short,
          (at, (omega arith, all), (omega arith, before)),
        )
      ])
]

-- The SJF policy returns NULL exactly when every job of the queue has a length of INT_MAX or more,
-- as in an empty queue; or it returns a job of the least length, the first such job of the queue.
pub policy_func-IsShortest :
    (q : List Job)
    → ((policy_func sjf q ≡ none) × All (λ x. int_max ≤ x.length) q)
      ⊎ ((i : ℕ) × (j : Job) × (policy_func sjf q ≡ some i)
          × (j.length < int_max)
          × IsShortest q i j)
unfolding policy_func handler_sjf
policy_func-IsShortest q = elim (sjf_loop-Chosen int_max none 0 q) [
  | inl h ↦ inl h
  | inr (k, j, e, short, best) ↦ inr (k, j, e ∙ ap some (omega arith), short, best)
]
