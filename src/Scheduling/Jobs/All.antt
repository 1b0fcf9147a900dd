-- ===== src/Scheduling/Jobs/All.antt =====
-- What the operations on queues keep: a predicate of jobs that ignores the mark `next_to_run`.
use wpi_operating_systems.Base.{
  ℕ, zero, suc, ◌≡◌, Bool, true, false, Bool-cases, inl, inr, Option, none, some, List, [], ◌∷◌,
  ◌++◌, ◌==◌, if◌then◌else◌, set,
}
use wpi_operating_systems.Scheduling.Jobs.{
  Job, copy_job, set_next, move_mark, mark_head, mark_second, shift_job_queue, remove_finished_jobs,
  arrives, new_jobs,
}

abbrev pub All {ℓ κ} : {A : Type ℓ} → (A → Type κ) → List A → Type κ
All P [] = Unit
All P (x ∷ xs) = P x × All P xs

pub All-append {ℓ κ} :
    {A : Type ℓ} (P : A → Type κ) (xs ys : List A) → All P xs → All P ys → All P (xs ++ ys)
All-append P [] ys h k = k
All-append P (x ∷ xs) ys h k = (h.0, All-append P xs ys h.1 k)

pub All-set {ℓ κ} :
    {A : Type ℓ} (P : A → Type κ) (xs : List A) (i : ℕ) (x : A)
    → All P xs
    → P x
    → All P (set xs i x)
All-set P [] i x h p = h
All-set P (y ∷ xs) zero x h p = (p, h.1)
All-set P (y ∷ xs) (suc i) x h p = (h.0, All-set P xs i x h.1 p)

pub All-mono {ℓ κ} :
    {A : Type ℓ} (P Q : A → Type κ) (xs : List A) → ((x : A) → P x → Q x) → All P xs → All Q xs
All-mono P Q [] f h = tt
All-mono P Q (x ∷ xs) f h = (f x h.0, All-mono P Q xs f h.1)

module _ (P : Job → Type 0) where
  pub All-remove_finished_jobs : (q : List Job) → All P q → All P (remove_finished_jobs q).0
  unfolding remove_finished_jobs
  All-remove_finished_jobs [] h = h
  All-remove_finished_jobs (j ∷ js) h = elim (Bool-cases (j.length == 0)) [
    | inl y ↦ rw y h.1
    | inr y ↦ rw y (h.0, All-remove_finished_jobs js h.1)
  ]

  module _ (marks : (b : Bool) (j : Job) → P j → P (set_next b j)) where
    Moved : Option (List Job × Bool) → Type 0
    Moved none = Unit
    Moved (some (r, last)) = All P r

    All-move_mark : (q : List Job) → All P q → Moved (move_mark q)
    unfolding move_mark Moved
    All-move_mark [] h = tt
    All-move_mark (j ∷ []) h = elim (Bool-cases j.next_to_run) [
      | inl y ↦ rw y (marks false j h.0, tt)
      | inr y ↦ rw y tt
    ]
    All-move_mark (j ∷ k ∷ js) h = elim (Bool-cases j.next_to_run) [
      | inl y ↦ rw y (marks false j h.0, (marks true k h.1.0, h.1.1))
      | inr y ↦ rw y (deeper (move_mark (k ∷ js)) (All-move_mark (k ∷ js) h.1))
    ]
      where
        deeper :
            (m : Option (List Job × Bool))
            → Moved m
            → Moved (elim m [ none ↦ none | some (r, last) ↦ some (j ∷ r, last) ])
        deeper none g = tt
        deeper (some (r, last)) g = (h.0, g)

    pub All-shift_job_queue : (q : List Job) → All P q → All P (shift_job_queue q)
    unfolding shift_job_queue Moved
    All-shift_job_queue q h = go (move_mark q) (All-move_mark q h)
      where
        second : (q : List Job) → All P q → All P (mark_second q)
        second [] h = h
        second (j ∷ []) h = h
        second (j ∷ k ∷ js) h = (h.0, (marks true k h.1.0, h.1.1))

        head : (q : List Job) → All P q → All P (mark_head q)
        head [] h = h
        head (j ∷ js) h = (marks true j h.0, h.1)

        go :
            (m : Option (List Job × Bool))
            → Moved m
            → All P
                (elim m [ none ↦ mark_second q | some (r, last) ↦ if last then mark_head r else r ])
        go none g = second q h
        go (some (r, true)) g = head r g
        go (some (r, false)) g = g

  -- What holds of the copy of each job that arrives holds of the new jobs.
  pub All-new_jobs :
      (t : ℕ) (js : List Job)
      → All (λ j. arrives t j ≡ true → P (copy_job (record j { scheduled = true }))) js
      → All P (new_jobs t js).0
  unfolding new_jobs
  All-new_jobs t [] h = tt
  All-new_jobs t (j ∷ js) h = elim (Bool-cases (arrives t j)) [
    | inl y ↦ rw y (h.0 y, All-new_jobs t js h.1)
    | inr y ↦ rw y (All-new_jobs t js h.1)
  ]
