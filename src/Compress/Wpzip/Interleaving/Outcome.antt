-- ===== src/Compress/Wpzip/Interleaving/Outcome.antt =====
-- What the threads leave, and that they come to an end, in whatever order they run.
use wpi_operating_systems.Base.{
  ℕ, zero, suc, ◌+◌, ◌≤◌, ◌≡◌, refl, sym, ap, ap₂, ◌∙◌, subst, List, [], ◌∷◌, ◌++◌, map, length,
  arith,
}
use wpi_operating_systems.Compress.Wpzip.{
  Result, ThreadData, scan_step, scan_loop, scan_end, thread_rle, new_result, all_threads,
  thread_results, finish, wpzip,
}
use wpi_operating_systems.Compress.Wpzip.Interleaving.{
  Pc, planned, scanning, counted, posted, Thread, System, thread, plan, Step, create, scan, count,
  post, Reach, start, later,
}
use wpi_operating_systems.Compress.Wpzip.Interleaving.Balance.{sum_of, is_done, Reach-IsBalanced}

abbrev contents : Pc → Result
contents planned = new_result
contents (scanning n v) = v.result
contents (counted r) = r
contents (posted r) = r

-- The linked list of results: one for each thread, and the one that stays empty.
abbrev pub results_of : List Thread → List Result
results_of [] = new_result ∷ []
results_of (t ∷ ts) = contents t.pc ∷ results_of ts

module _ (junk : ℕ) where
  -- A thread is on the way to the result of `thread_rle`.
  abbrev OnWay : ThreadData → Pc → Type 0
  OnWay d planned = Unit {0}
  OnWay d (scanning n v) = scan_end junk d (scan_loop junk n d v) ≡ thread_rle junk d new_result
  OnWay d (counted r) = r ≡ thread_rle junk d new_result
  OnWay d (posted r) = r ≡ thread_rle junk d new_result

  abbrev AllOnWay : List Thread → Type 0
  AllOnWay [] = Unit {0}
  AllOnWay (t ∷ ts) = OnWay t.part t.pc × AllOnWay ts

  AllOnWay-move :
      (xs : List Thread) (t u : Thread) (ys : List Thread)
      → (OnWay t.part t.pc → OnWay u.part u.pc)
      → AllOnWay (xs ++ (t ∷ ys))
      → AllOnWay (xs ++ (u ∷ ys))
  AllOnWay-move [] t u ys f h = (f h.0, h.1)
  AllOnWay-move (x ∷ xs) t u ys f h = (h.0, AllOnWay-move xs t u ys f h.1)

  Step-AllOnWay : {s t : System} → Step junk s t → AllOnWay s.threads → AllOnWay t.threads
  unfolding scan_loop thread_rle
  Step-AllOnWay (create xs d ys e at pos) h =
      AllOnWay-move xs (thread d planned) _ ys (λ w. refl) (subst AllOnWay e h)
  Step-AllOnWay (scan xs d n w ys e) h =
      AllOnWay-move xs (thread d (scanning (suc n) w)) (thread d (scanning n (scan_step junk d w)))
        ys (λ p. p) (subst AllOnWay e h)
  Step-AllOnWay (count xs d w ys e) h =
      AllOnWay-move xs (thread d (scanning zero w)) (thread d (counted (scan_end junk d w))) ys
        (λ p. p) (subst AllOnWay e h)
  Step-AllOnWay (post xs d r ys e) h =
      AllOnWay-move xs (thread d (counted r)) (thread d (posted r)) ys (λ p. p) (subst AllOnWay e h)

  plan-AllOnWay : (ds : List ThreadData) → AllOnWay (plan ds)
  plan-AllOnWay [] = tt
  plan-AllOnWay (d ∷ ds) = (tt, plan-AllOnWay ds)

  Reach-AllOnWay :
      {num_threads : ℕ} {ds : List ThreadData} {s : System}
      → Reach junk num_threads ds s
      → AllOnWay s.threads
  Reach-AllOnWay {ds} start = plan-AllOnWay ds
  Reach-AllOnWay (later r st) = Step-AllOnWay st (Reach-AllOnWay r)

is_done-le : (ts : List Thread) → sum_of is_done ts ≤ length ts
is_done-le [] = omega arith
is_done-le (t ∷ ts) = omega (arith, is_done-le ts, one t.pc t.part)
  where
    one : (p : Pc) (d : ThreadData) → is_done (thread d p) ≤ 1
    one planned d = omega arith
    one (scanning n v) d = omega arith
    one (counted r) d = omega arith
    one (posted r) d = omega arith

results-done :
    (junk : ℕ) (ts : List Thread)
    → AllOnWay junk ts
    → sum_of is_done ts ≡ length ts
    → results_of ts ≡ thread_results junk (map (λ t. t.part) ts)
unfolding thread_results
results-done junk [] h all = refl
results-done junk (t ∷ ts) h all = go (λ e. results-done junk ts h.1 e) t.pc t.part h.0 all
  where
    go :
        (sum_of is_done ts ≡ length ts → results_of ts ≡ thread_results junk (map (λ t. t.part) ts))
        → (p : Pc) (d : ThreadData) → OnWay junk d p
        → is_done (thread d p) + sum_of is_done ts ≡ suc (length ts)
        → contents p ∷ results_of ts
          ≡ thread_rle junk d new_result ∷ thread_results junk (map (λ t. t.part) ts)
    go rest planned d w a = absurd (omega (arith, is_done-le ts))
    go rest (scanning n v) d w a = absurd (omega (arith, is_done-le ts))
    go rest (counted r) d w a = ap₂ ◌∷◌ w (rest (omega arith))
    go rest (posted r) d w a = ap₂ ◌∷◌ w (rest (omega arith))

pub length-map_part : (ts : List Thread) → length (map (λ t. t.part) ts) ≡ length ts
length-map_part [] = refl
length-map_part (t ∷ ts) = ap suc (length-map_part ts)

-- Whatever the order in which the threads were scheduled: when `threads_done` has reached the number
-- of threads, merging and writing the results gives the output of the threads run one by one.
pub finish-results_of :
    (junk t : ℕ) (num_threads : ℕ) (files : List (List ℕ)) (s : System)
    → Reach junk num_threads (all_threads t files) s
    → s.threads_done ≡ length (all_threads t files)
    → finish (results_of s.threads) ≡ wpzip junk t files
unfolding wpzip
finish-results_of junk t num_threads files s r all =
    let v = Reach-IsBalanced junk num_threads (all_threads t files) r in
    let size : length (all_threads t files) ≡ length s.threads =
      ap length (sym v.parts) ∙ length-map_part s.threads in
    ap finish (
      results-done junk s.threads (Reach-AllOnWay junk r) (omega (arith, v.done))
      ∙ ap (thread_results junk) v.parts)
