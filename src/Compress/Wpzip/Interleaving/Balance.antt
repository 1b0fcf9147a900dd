-- ===== src/Compress/Wpzip/Interleaving/Balance.antt =====
-- The counters of the threads: the semaphore, the threads that are done and those that were created.
use wpi_operating_systems.Base.{
  ℕ, zero, suc, ◌+◌, ◌-◌, ◌<◌, ◌≡◌, ◌≢◌, refl, sym, ap, ◌∙◌, subst, List, [], ◌∷◌, ◌++◌, map,
  length, arith,
}
use wpi_operating_systems.Compress.Wpzip.{ThreadData, scan_start, scan_step, scan_end, new_result}
use wpi_operating_systems.Compress.Wpzip.Interleaving.{
  Pc, planned, scanning, counted, posted, Thread, System, thread, plan, Step, create, scan, count,
  post, Reach, start, later,
}

-- A sum over the threads.
abbrev pub sum_of : (Thread → ℕ) → List Thread → ℕ
sum_of w [] = 0
sum_of w (t ∷ ts) = w t + sum_of w ts

sum_of-append :
    (w : Thread → ℕ) (xs ys : List Thread) → sum_of w (xs ++ ys) ≡ sum_of w xs + sum_of w ys
sum_of-append w [] ys = omega arith
sum_of-append w (x ∷ xs) ys = omega (arith, sum_of-append w xs ys)

-- A thread that moves exchanges its weight.
pub sum_of-move :
    (w : Thread → ℕ) (ts xs : List Thread) (t u : Thread) (ys : List Thread)
    → ts ≡ xs ++ (t ∷ ys)
    → sum_of w (xs ++ (u ∷ ys)) + w t ≡ sum_of w ts + w u
sum_of-move w ts xs t u ys e =
    omega (arith, ap (sum_of w) e, sum_of-append w xs (t ∷ ys), sum_of-append w xs (u ∷ ys))

abbrev active_pc : Pc → ℕ
active_pc planned = 0
active_pc (scanning n v) = 1
active_pc (counted r) = 1
active_pc (posted r) = 0

abbrev done_pc : Pc → ℕ
done_pc planned = 0
done_pc (scanning n v) = 0
done_pc (counted r) = 1
done_pc (posted r) = 1

-- created and not yet posted
abbrev pub active : Thread → ℕ
active t = active_pc t.pc

abbrev pub is_done : Thread → ℕ
is_done t = done_pc t.pc

abbrev left_pc : ThreadData → Pc → ℕ
left_pc d planned = d.end_offset - (d.start_offset + 1) + 4
left_pc d (scanning n v) = n + 3
left_pc d (counted r) = 1
left_pc d (posted r) = 0

-- The steps that a thread still takes, at most.
abbrev pub steps_left : Thread → ℕ
steps_left t = left_pc t.part t.pc

-- The first threads have been created, and the others not.
abbrev pub InOrder : ℕ → List Thread → Type 0
InOrder zero [] = Unit {0}
InOrder zero (t ∷ ts) = (t.pc ≡ planned) × InOrder zero ts
InOrder (suc n) [] = ⊥
InOrder (suc n) (t ∷ ts) = (t.pc ≢ planned) × InOrder n ts

pub record IsBalanced (num_threads : ℕ) (ds : List ThreadData) (s : System) : Type 0 where
  pub semaphore : s.thread_s + sum_of active s.threads ≡ num_threads
  pub done : sum_of is_done s.threads ≡ s.threads_done
  pub parts : map (λ t. t.part) s.threads ≡ ds
  pub in_order : InOrder s.thread_index s.threads

parts_move :
    (xs : List Thread) (d : ThreadData) (p q : Pc) (ys : List Thread)
    → map (λ t. t.part) (xs ++ (thread d q ∷ ys)) ≡ map (λ t. t.part) (xs ++ (thread d p ∷ ys))
parts_move [] d p q ys = refl
parts_move (x ∷ xs) d p q ys = ap (◌∷◌ x.part) (parts_move xs d p q ys)

InOrder-move :
    (k : ℕ) (xs : List Thread) (t u : Thread) (ys : List Thread)
    → t.pc ≢ planned
    → u.pc ≢ planned
    → InOrder k (xs ++ (t ∷ ys))
    → InOrder k (xs ++ (u ∷ ys))
InOrder-move zero [] t u ys nt nu h = absurd (nt h.0)
InOrder-move (suc k) [] t u ys nt nu h = (nu, h.1)
InOrder-move zero (x ∷ xs) t u ys nt nu h = (h.0, InOrder-move zero xs t u ys nt nu h.1)
InOrder-move (suc k) (x ∷ xs) t u ys nt nu h = (h.0, InOrder-move k xs t u ys nt nu h.1)

InOrder-create :
    (xs : List Thread) (t u : Thread) (ys : List Thread)
    → u.pc ≢ planned
    → InOrder (length xs) (xs ++ (t ∷ ys))
    → InOrder (suc (length xs)) (xs ++ (u ∷ ys))
InOrder-create [] t u ys nu h = (nu, h.1)
InOrder-create (x ∷ xs) t u ys nu h = (h.0, InOrder-create xs t u ys nu h.1)

plan-InOrder : (ds : List ThreadData) → InOrder 0 (plan ds)
plan-InOrder [] = tt
plan-InOrder (d ∷ ds) = (refl, plan-InOrder ds)

plan_sums :
    (ds : List ThreadData)
    → (sum_of active (plan ds) ≡ 0)
      × (sum_of is_done (plan ds) ≡ 0)
      × (map (λ t. t.part) (plan ds) ≡ ds)
plan_sums [] = (refl, refl, refl)
plan_sums (d ∷ ds) = let (a, b, c) = plan_sums ds in (omega arith, omega arith, ap (◌∷◌ d) c)

-- The counters after a thread has moved from `p` to `q`.
module _ (num_threads : ℕ) (ds : List ThreadData) (s : System) (v : IsBalanced num_threads ds s)
    (xs : List Thread) (d : ThreadData) (p q : Pc) (ys : List Thread)
    (e : s.threads ≡ xs ++ (thread d p ∷ ys)) (sem total : ℕ)
    (sem_eq : sem + active_pc q ≡ s.thread_s + active_pc p)
    (total_eq : total + done_pc p ≡ s.threads_done + done_pc q) where
  counters_move :
      (k : ℕ)
      → InOrder k (xs ++ (thread d q ∷ ys))
      → IsBalanced num_threads ds (record {
        thread_s = sem;
        threads_done = total;
        thread_index = k;
        threads = xs ++ (thread d q ∷ ys);
      })
  counters_move k h = record {
    semaphore =
        omega (arith, v.semaphore, sum_of-move active s.threads xs (thread d p) (thread d q) ys e);
    done = omega (arith, v.done, sum_of-move is_done s.threads xs (thread d p) (thread d q) ys e);
    parts = parts_move xs d p q ys ∙ ap (map (λ t. t.part)) (sym e) ∙ v.parts;
    in_order = h;
  }

  IsBalanced-move :
      p ≢ planned
      → q ≢ planned
      → IsBalanced num_threads ds (record {
        thread_s = sem;
        threads_done = total;
        thread_index = s.thread_index;
        threads = xs ++ (thread d q ∷ ys);
      })
  IsBalanced-move np nq = counters_move s.thread_index (
      InOrder-move s.thread_index xs (thread d p) (thread d q) ys np nq
        (subst (InOrder s.thread_index) e v.in_order))

module _ (junk num_threads : ℕ) (ds : List ThreadData) where
  Step-IsBalanced :
      {s t : System} → Step junk s t → IsBalanced num_threads ds s → IsBalanced num_threads ds t
  Step-IsBalanced {s} (create xs d ys e at pos) v =
      let q : Pc = scanning (d.end_offset - (d.start_offset + 1)) (scan_start junk d new_result) in
      let not_planned : q ≢ planned = λ h. cc in
      let next : s.thread_index + 1 ≡ suc (length xs) = omega arith in
      counters_move num_threads ds s v xs d planned q ys e (s.thread_s - 1) s.threads_done
        (omega arith) (omega arith) (s.thread_index + 1)
        (subst (λ k. InOrder k (xs ++ (thread d q ∷ ys))) (sym next)
          (InOrder-create xs (thread d planned) (thread d q) ys not_planned
            (subst (InOrder (length xs)) e (subst (λ k. InOrder k s.threads) (sym at) v.in_order))))
  Step-IsBalanced {s} (scan xs d n w ys e) v =
      IsBalanced-move num_threads ds s v xs d (scanning (suc n) w) (scanning n (scan_step junk d w))
        ys e s.thread_s s.threads_done (omega arith) (omega arith) (λ h. cc) (λ h. cc)
  Step-IsBalanced {s} (count xs d w ys e) v =
      IsBalanced-move num_threads ds s v xs d (scanning zero w) (counted (scan_end junk d w)) ys e
        s.thread_s (s.threads_done + 1) (omega arith) (omega arith) (λ h. cc) (λ h. cc)
  Step-IsBalanced {s} (post xs d r ys e) v =
      IsBalanced-move num_threads ds s v xs d (counted r) (posted r) ys e (s.thread_s + 1)
        s.threads_done (omega arith) (omega arith) (λ h. cc) (λ h. cc)

  -- In every reachable state the value of the semaphore and the threads between their creation and
  -- their `sem_post` add up to the number of threads allowed, `threads_done` counts the threads whose
  -- results are complete, and the threads have been created in the order of their parts.
  pub Reach-IsBalanced : {s : System} → Reach junk num_threads ds s → IsBalanced num_threads ds s
  Reach-IsBalanced start =
      let (a, b, c) = plan_sums ds in
      record { semaphore = omega arith; done = b; parts = c; in_order = plan-InOrder ds }
  Reach-IsBalanced (later r st) = Step-IsBalanced st (Reach-IsBalanced r)

-- Every step of `main` or a thread leaves fewer steps to take, so that no run goes on for ever.
Step-steps_left :
    (junk : ℕ) {s t : System}
    → Step junk s t
    → sum_of steps_left t.threads < sum_of steps_left s.threads
Step-steps_left junk {s} (create xs d ys e at pos) = omega (
  arith,
  sum_of-move steps_left s.threads xs (thread d planned)
      (thread d (scanning (d.end_offset - (d.start_offset + 1)) (scan_start junk d new_result))) ys
      e,
)
Step-steps_left junk {s} (scan xs d n w ys e) = omega (
  arith,
  sum_of-move steps_left s.threads xs (thread d (scanning (suc n) w))
      (thread d (scanning n (scan_step junk d w))) ys e,
)
Step-steps_left junk {s} (count xs d w ys e) = omega (
  arith,
  sum_of-move steps_left s.threads xs (thread d (scanning zero w))
      (thread d (counted (scan_end junk d w))) ys e,
)
Step-steps_left junk {s} (post xs d r ys e) =
    omega
      (arith, sum_of-move steps_left s.threads xs (thread d (counted r)) (thread d (posted r)) ys e)
