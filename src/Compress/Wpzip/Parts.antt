-- ===== src/Compress/Wpzip/Parts.antt =====
-- The threads of one file of wpzip: the runs of its parts, glued, are those of the file.
use wpi_operating_systems.Base.{
  ℕ, zero, suc, ◌+◌, ◌-◌, ◌*◌, ◌≤◌, ◌<◌, ◌≡◌, refl, sym, ◌∙◌, ap, false, List, [], ◌∷◌, ◌++◌,
  append_assoc, ◌==◌, arith, length, take,
}
use wpi_operating_systems.Compress.Runs.{Entry, push, runs}
use wpi_operating_systems.Compress.Wpzip.{
  Result, ThreadData, new_result, init_result, thread_rle, init_thread_data, thread_results,
}
use wpi_operating_systems.Compress.Wpzip.Threads.{slice, thread_rle-runs, Holds, thread_rle-Holds}
use wpi_operating_systems.Compress.Wpzip.Merge.{glue, runs-append, glue_all, AllFresh}

take-slice : (a n : ℕ) (cs : List ℕ) → take a cs ++ slice a n cs ≡ take (a + n) cs
take-slice zero n cs = let e : zero + n ≡ n = omega arith in rw e
take-slice (suc a) zero [] = let e : suc a + zero ≡ suc (a + zero) = omega arith in rw e
take-slice (suc a) (suc n) [] = let e : suc a + suc n ≡ suc (a + suc n) = omega arith in rw e
take-slice (suc a) n (c ∷ cs) =
    let e : suc a + n ≡ suc (a + n) = omega arith in rw (e, take-slice a n cs)

pub take_all : (n : ℕ) (cs : List ℕ) → length cs ≤ n → take n cs ≡ cs
take_all zero [] h = refl
take_all zero (c ∷ cs) h = absurd (omega arith)
take_all (suc n) [] h = refl
take_all (suc n) (c ∷ cs) h = ap (λ t. c ∷ t) (take_all n cs (omega arith))

length-runs : (c : ℕ) (cs : List ℕ) → 0 < length (runs (c ∷ cs))
unfolding runs
length-runs c cs = go (runs cs)
  where
    go : (r : List Entry) → 0 < length (push 1 c r)
    go [] = omega arith
    go ((k, d) ∷ r) = ground arith

runs_some : (cs : List ℕ) → 0 < length cs → 0 < length (runs cs)
runs_some [] h = absurd (omega arith)
runs_some (c ∷ cs) h = length-runs c cs

length-slice : (s n : ℕ) (cs : List ℕ) → s + n ≤ length cs → length (slice s n cs) ≡ n
length-slice zero zero cs h = refl
length-slice zero (suc n) [] h = absurd (omega arith)
length-slice zero (suc n) (c ∷ cs) h = ap suc (length-slice zero n cs (omega arith))
length-slice (suc s) n [] h = absurd (omega arith)
length-slice (suc s) n (c ∷ cs) h = length-slice s n cs (omega arith)

module _ (junk : ℕ) where
  -- the results of the threads, without the last empty one
  abbrev pub results : List ThreadData → List Result
  results [] = []
  results (d ∷ ds) = thread_rle junk d new_result ∷ results ds

  pub results-append : (ds es : List ThreadData) → results (ds ++ es) ≡ results ds ++ results es
  results-append [] es = refl
  results-append (d ∷ ds) es = ap (λ t. thread_rle junk d new_result ∷ t) (results-append ds es)

  pub thread_results-append :
      (ds es : List ThreadData)
      → thread_results junk (ds ++ es) ≡ results ds ++ thread_results junk es
  unfolding thread_results
  thread_results-append [] es = refl
  thread_results-append (d ∷ ds) es =
      ap (λ t. thread_rle junk d new_result ∷ t) (thread_results-append ds es)

  new-Holds : Holds new_result
  unfolding init_result
  new-Holds = record { some_room = omega arith; fits = omega arith }

  -- A thread whose part is not empty.
  part :
      (d : ThreadData)
      → d.start_offset < d.end_offset
      → d.end_offset ≤ length d.file_data
      → (thread_rle junk d new_result).entries
        ≡ runs (slice d.start_offset (d.end_offset - d.start_offset) d.file_data)
  unfolding init_result
  part d some_part inside = thread_rle-runs junk d new_result some_part inside

  part_fresh :
      (d : ThreadData)
      → d.start_offset < d.end_offset
      → d.end_offset ≤ length d.file_data
      → ((thread_rle junk d new_result).start ≡ 0)
        × (0 < length (thread_rle junk d new_result).entries)
  part_fresh d some_part inside = (
    (thread_rle-Holds junk d new_result new-Holds).1 ∙ unfold init_result in refl,
    rw (part d some_part inside) (
        runs_some _
          (omega (arith, length-slice d.start_offset (d.end_offset - d.start_offset) d.file_data))),
  )

-- A part glued behind the runs of all that stands before it.
glue_part :
    (before cs : List ℕ) (s n : ℕ)
    → glue (runs (before ++ take s cs)) (runs (slice s n cs)) ≡ runs (before ++ take (s + n) cs)
glue_part before cs s n =
    sym (runs-append (before ++ take s cs) (slice s n cs))
    ∙ ap runs
        (append_assoc before (take s cs) (slice s n cs) ∙ ap (λ t. before ++ t) (take-slice s n cs))

module _ (junk : ℕ) (before cs : List ℕ) (chunk : ℕ) (some_chunk : 0 < chunk) where
  -- The parts of one file, from the part `i` on, glued behind what stands before them.
  pub parts :
      (n i : ℕ)
      → chunk * i + chunk * suc n ≤ length cs
      → (glue_all
            (runs (before ++ take (chunk * i) cs))
            (results junk (init_thread_data cs chunk i (suc n)))
          ≡ runs (before ++ cs))
        × AllFresh (results junk (init_thread_data cs chunk i (suc n)))
  unfolding init_thread_data
  parts zero i room =
      let d : ThreadData = record {
        start_offset = chunk * i;
        end_offset = length cs;
        file_data = cs;
      } in
      let some_part : chunk * i < length cs = omega arith in
      let fresh = part_fresh junk d some_part (omega arith) in
      (
        rw (part junk d some_part (omega arith)) (
            glue_part before cs (chunk * i) (length cs - chunk * i)
            ∙ ap (λ t. runs (before ++ t)) (take_all _ cs (omega arith))),
        (fresh.0, fresh.1, tt),
      )
  parts (suc n) i room =
      let d : ThreadData = record {
        start_offset = chunk * i;
        end_offset = chunk * (i + 1);
        file_data = cs;
      } in
      let some_part : chunk * i < chunk * (i + 1) = omega arith in
      let inside : chunk * (i + 1) ≤ length cs = omega arith in
      let fresh = part_fresh junk d some_part inside in
      let (rest, all) = parts n (i + 1) (omega arith) in
      let more : (suc n == 0) ≡ false = ground arith in
      let next : chunk * i + (chunk * (i + 1) - chunk * i) ≡ chunk * (i + 1) = omega arith in
      rw more (
        rw
            (
              part junk d some_part inside,
              glue_part before cs (chunk * i) (chunk * (i + 1) - chunk * i),
              next,
            )
            rest,
        (fresh.0, fresh.1, all),
      )
