-- ===== src/Scheduling/Policies/Picks.antt =====
-- Every policy picks a job of the queue, unless there is none.
use wpi_operating_systems.Base.{
  ℕ, suc, ◌+◌, ◌≤◌, ◌<◌, ◌≡◌, refl, sym, subst, ◌∙◌, ap, ◌⊎◌, Bool-cases, inl, inr, Option, none,
  some, List, [], ◌∷◌, arith, get_elem?,
}
use wpi_operating_systems.Scheduling.Jobs.{Job}
use wpi_operating_systems.Scheduling.Jobs.All.{All}
use wpi_operating_systems.Scheduling.Policies.{
  Policy, fifo, sjf, rr, int_max, handler_fifo, handler_rr, rr_loop, policy_func,
}
use wpi_operating_systems.Scheduling.Policies.Shortest.{policy_func-IsShortest}

-- What a policy returns for a queue.
abbrev pub Picks : List Job → Option ℕ → Type 0
Picks q r =
    ((r ≡ none) × (q ≡ [])) ⊎ ((i : ℕ) × (j : Job) × (r ≡ some i) × (get_elem? q i ≡ some j))

rr_loop-Picks :
    (i : ℕ) (q : List Job)
    → (rr_loop i q ≡ none)
      ⊎ ((k : ℕ) × (j : Job) × (rr_loop i q ≡ some (i + k)) × (get_elem? q k ≡ some j))
unfolding rr_loop
rr_loop-Picks i [] = inl refl
rr_loop-Picks i (j ∷ js) = elim (Bool-cases j.next_to_run) [
  | inl y ↦ inr (0, j, rw y (ap some (omega arith)), refl)
  | inr y ↦ elim (rr_loop-Picks (i + 1) js) [
    | inl e ↦ inl (rw y e)
    | inr (k, x, e, at) ↦ inr (suc k, x, rw y (e ∙ ap some (omega arith)), at)
  ]
]

handler_fifo-Picks : (q : List Job) → Picks q (handler_fifo q)
unfolding handler_fifo
handler_fifo-Picks [] = inl (refl, refl)
handler_fifo-Picks (j ∷ js) = inr (0, j, refl, refl)

handler_rr-Picks : (q : List Job) → Picks q (handler_rr q)
unfolding handler_rr
handler_rr-Picks q = elim (rr_loop-Picks 0 q) [
  | inl e ↦ subst (Picks q) (sym (ap chosen e)) (handler_fifo-Picks q)
  | inr (k, j, e, at) ↦ inr (k, j, ap chosen e ∙ ap some (omega arith), at)
]
  where
    chosen : Option ℕ → Option ℕ
    chosen r = elim r [ none ↦ handler_fifo q | some i ↦ some i ]

-- Each policy returns a position inside the queue, or NULL exactly when the queue is empty, if the
-- jobs in it have less than INT_MAX to run.
pub policy_func-Picks :
    (p : Policy) (q : List Job) → All (λ j. j.length < int_max) q → Picks q (policy_func p q)
policy_func-Picks fifo q h = unfold policy_func in handler_fifo-Picks q
policy_func-Picks rr q h = unfold policy_func in handler_rr-Picks q
policy_func-Picks sjf q h = elim (policy_func-IsShortest q) [
  | inl (e, long) ↦ inl (e, none_left q h long)
  | inr (i, j, e, less, (at, all, before)) ↦ inr (i, j, e, at)
]
  where
    none_left :
        (q : List Job) → All (λ j. j.length < int_max) q → All (λ j. int_max ≤ j.length) q → q ≡ []
    none_left [] h l = refl
    none_left (j ∷ q) h l = absurd (omega arith)
