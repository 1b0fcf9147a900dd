-- ===== src/Compress/Wpzip/Interleaving/Progress.antt =====
-- The threads never block for good, and `main` may go on before the last of them has ended.
use wpi_operating_systems.Base.{
  ℕ, zero, suc, ◌+◌, ◌-◌, ◌<◌, ◌≡◌, refl, sym, ap, ◌∙◌, subst, ◌⊎◌, inl, inr, List, [], ◌∷◌, ◌++◌,
  length, arith,
}
use wpi_operating_systems.Compress.Wpzip.{
  Result, ThreadData, Scan, scan_start, scan_step, new_result,
}
use wpi_operating_systems.Compress.Wpzip.Interleaving.{
  Pc, planned, scanning, counted, posted, Thread, System, thread, Step, create, scan, count, post,
  Reach, start, later,
}
use wpi_operating_systems.Compress.Wpzip.Interleaving.Balance.{
  sum_of, is_done, active, InOrder, Reach-IsBalanced,
}
use wpi_operating_systems.Compress.Wpzip.Interleaving.Outcome.{length-map_part}

-- A thread that can move by itself, or none.
abbrev Idle : Pc → Type 0
Idle planned = Unit {0}
Idle (scanning n v) = ⊥
Idle (counted r) = ⊥
Idle (posted r) = Unit {0}

abbrev AllIdle : List Thread → Type 0
AllIdle [] = Unit {0}
AllIdle (t ∷ ts) = Idle t.pc × AllIdle ts

abbrev Split : (Pc → Type 0) → List Thread → Type 0
Split P ts =
    (xs : List Thread) × (d : ThreadData) × (p : Pc) × (ys : List Thread) × (ts
      ≡ xs ++ (thread d p ∷ ys))
    × P p

abbrev Moves : Pc → Type 0
Moves planned = ⊥
Moves (scanning n v) = Unit {0}
Moves (counted r) = Unit {0}
Moves (posted r) = ⊥

split_lem : (ts : List Thread) → Split Moves ts ⊎ AllIdle ts
split_lem [] = inr tt
split_lem (t ∷ ts) = go t.pc refl (split_lem ts)
  where
    go : (p : Pc) → t.pc ≡ p → Split Moves ts ⊎ AllIdle ts → Split Moves (t ∷ ts) ⊎ AllIdle (t ∷ ts)
    go p e (inl (xs, d, q, ys, f, m)) = inl (t ∷ xs, d, q, ys, ap (◌∷◌ t) f, m)
    go planned e (inr h) = inr (subst Idle (sym e) tt, h)
    go (posted r) e (inr h) = inr (subst Idle (sym e) tt, h)
    go (scanning n v) e (inr h) =
        inl ([], t.part, scanning n v, ts, ap (λ p. thread t.part p ∷ ts) e, tt)
    go (counted r) e (inr h) = inl ([], t.part, counted r, ts, ap (λ p. thread t.part p ∷ ts) e, tt)

-- Where no thread can move, none holds a place of the semaphore, and the next planned one stands at
-- `thread_index`.
idle_active : (ts : List Thread) → AllIdle ts → sum_of active ts ≡ 0
idle_active [] h = refl
idle_active (t ∷ ts) h = go (idle_active ts h.1) t.pc t.part h.0
  where
    go :
        sum_of active ts ≡ 0
        → (p : Pc) (d : ThreadData) → Idle p
        → active (thread d p) + sum_of active ts ≡ 0
    go later_ones planned d i = omega (arith, later_ones)
    go later_ones (scanning n v) d i = absurd i
    go later_ones (counted r) d i = absurd i
    go later_ones (posted r) d i = omega (arith, later_ones)

first_planned :
    (k : ℕ) (ts : List Thread)
    → InOrder k ts
    → AllIdle ts
    → sum_of is_done ts < length ts
    → (xs : List Thread) × (d : ThreadData) × (ys : List Thread) × (ts
        ≡ xs ++ (thread d planned ∷ ys))
      × (length xs ≡ k)
first_planned zero [] o h less = absurd (omega arith)
first_planned zero (t ∷ ts) o h less = ([], t.part, ts, ap (λ p. thread t.part p ∷ ts) o.0, refl)
first_planned (suc k) [] o h less = absurd o
first_planned (suc k) (t ∷ ts) o h less =
    let (xs, d, ys, e, at) = first_planned k ts o.1 h.1 (go t.pc t.part refl h.0 less) in
    (t ∷ xs, d, ys, ap (◌∷◌ t) e, ap suc at)
  where
    go :
        (p : Pc) (d : ThreadData)
        → t.pc ≡ p
        → Idle p
        → is_done (thread d p) + sum_of is_done ts < suc (length ts)
        → sum_of is_done ts < length ts
    go planned d e i l = absurd (o.0 e)
    go (scanning n v) d e i l = absurd i
    go (counted r) d e i l = absurd i
    go (posted r) d e i l = omega arith

-- There is no deadlock: with a semaphore that starts above 0, as long as a thread is not counted in
-- `threads_done`, `main` or some thread can take a step.
pub Reach-progress :
    (junk num_threads : ℕ) (ds : List ThreadData) (s : System)
    → 0 < num_threads
    → Reach junk num_threads ds s
    → s.threads_done < length ds
    → (t : System) × Step junk s t
Reach-progress junk num_threads ds s some_threads r less =
    let v = Reach-IsBalanced junk num_threads ds r in
    let size : length ds ≡ length s.threads = ap length (sym v.parts) ∙ length-map_part s.threads in
    elim (split_lem s.threads) [
      | inl (xs, d, p, ys, e, m) ↦ move xs d p ys e m
      | inr idle ↦
          let (xs, d, ys, e, at) =
            first_planned s.thread_index s.threads v.in_order idle (omega (arith, v.done)) in
          (_, create xs d ys e at (omega (arith, v.semaphore, idle_active s.threads idle)))
    ]
  where
    move :
        (xs : List Thread) (d : ThreadData) (p : Pc) (ys : List Thread)
        → s.threads ≡ xs ++ (thread d p ∷ ys)
        → Moves p
        → (t : System) × Step junk s t
    move xs d planned ys e m = absurd m
    move xs d (scanning zero v) ys e m = (_, count xs d v ys e)
    move xs d (scanning (suc n) v) ys e m = (_, scan xs d n v ys e)
    move xs d (counted r) ys e m = (_, post xs d r ys e)
    move xs d (posted r) ys e m = absurd m

abbrev one_thread : ℕ → ThreadData → Pc → System
one_thread num_threads d p = record {
  thread_s = num_threads - 1;
  threads_done = 0;
  thread_index = 1;
  threads = thread d p ∷ [];
}

scan_all :
    (junk num_threads : ℕ) (d : ThreadData) (n : ℕ) (v : Scan)
    → Reach junk num_threads (d ∷ []) (one_thread num_threads d (scanning n v))
    → (r : Result) × Reach junk num_threads
        (d ∷ [])
        (record (one_thread num_threads d (counted r)) { threads_done = 1 })
scan_all junk num_threads d zero v r = (_, later r (count [] d v [] refl))
scan_all junk num_threads d (suc n) v r =
    scan_all junk num_threads d n (scan_step junk d v) (later r (scan [] d n v [] refl))

-- With one thread, whatever its part, a state can be reached where the wait of `main` is over, since
-- `threads_done` is 1, and the thread has not posted the semaphore yet: `main` may destroy and free
-- the semaphore before the thread uses it.
pub Reach_early :
    (junk num_threads : ℕ) (d : ThreadData)
    → 0 < num_threads
    → (s : System) × Reach junk num_threads (d ∷ []) s
      × (s.threads_done ≡ 1)
      × (sum_of active s.threads ≡ 1)
Reach_early junk num_threads d pos =
    let (r, reach) =
      scan_all junk num_threads d (d.end_offset - (d.start_offset + 1))
        (scan_start junk d new_result) (later start (create [] d [] refl refl pos)) in
    (_, reach, refl, refl)
