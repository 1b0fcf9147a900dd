-- ===== src/Compress/WpzipUnoptimized/Parts.antt =====
-- The threads of one file: their entries spell the file.
use native.Mathlib.Nat.{div-mul-le_self}
use wpi_operating_systems.Base.{
  ℕ, zero, suc, ◌+◌, ◌-◌, ◌*◌, ◌/◌, ◌^◌, ltb, true, ◌≤◌, ◌<◌, ◌≡◌, refl, sym, ◌∙◌, ap, subst, false,
  Option, none, some, List, [], ◌∷◌, ◌++◌, append_assoc, ◌==◌, arith, length, drop,
  take-append-drop,
}
use wpi_operating_systems.Compress.Runs.{Entry, runs}
use wpi_operating_systems.Compress.Chunks.{chunks_fit-small}
use wpi_operating_systems.Compress.Wpzip.Threads.{slice}
use wpi_operating_systems.Compress.WpzipUnoptimized.{
  Result, init_result, ThreadData, thread_rle, init_threads, run_threads, per_file,
}
use wpi_operating_systems.Compress.WpzipUnoptimized.Joins.{
  join, extend, extend-append, join-runs, all_entries,
}
use wpi_operating_systems.Compress.WpzipUnoptimized.Threads.{Holds, thread_rle-Gives}

slice-drop : (s n : ℕ) (cs : List ℕ) → slice s n cs ++ drop (s + n) cs ≡ drop s cs
slice-drop zero n cs = let e : zero + n ≡ n = omega arith in rw e (take-append-drop n cs)
slice-drop (suc s) zero [] = let e : suc s + zero ≡ suc (s + zero) = omega arith in rw e
slice-drop (suc s) (suc n) [] = let e : suc s + suc n ≡ suc (s + suc n) = omega arith in rw e
slice-drop (suc s) n (c ∷ cs) =
    let e : suc s + n ≡ suc (s + n) = omega arith in rw e (slice-drop s n cs)

drop_all : (n : ℕ) (cs : List ℕ) → length cs ≤ n → drop n cs ≡ []
drop_all zero [] h = refl
drop_all zero (c ∷ cs) h = absurd (omega arith)
drop_all (suc n) [] h = refl
drop_all (suc n) (c ∷ cs) h = drop_all n cs (omega arith)

-- `o` is a list of results whose entries, joined, spell `cs`.
abbrev pub Spells : Option (List Result) → List ℕ → Type 0
Spells o cs =
    (rs : List Result) × (o ≡ some rs)
    × ((l : List Entry) → join (all_entries rs ++ l) ≡ extend cs (join l))

module _ (junk room : ℕ) (some_room : 0 < room) where
  new_thread :
      (d : ThreadData)
      → d.start_offset ≤ d.end_offset
      → d.end_offset ≤ length d.file_data
      → (s : Result) × (thread_rle junk d (init_result room) ≡ some s)
        × (s.entries ≡ runs (slice d.start_offset (d.end_offset - d.start_offset) d.file_data))
  unfolding init_result
  new_thread d order inside =
      let empty : Holds (init_result room) = record { some_room = some_room; fits = omega arith } in
      let (s, e, es, h) = thread_rle-Gives junk d (init_result room) empty order inside in
      (s, e, es)

  run_threads-cons :
      (d : ThreadData) (ds : List ThreadData) (r : Result) (rs : List Result)
      → thread_rle junk d (init_result room) ≡ some r
      → run_threads junk room ds ≡ some rs
      → run_threads junk room (d ∷ ds) ≡ some (r ∷ rs)
  unfolding run_threads
  run_threads-cons d ds r rs = go (thread_rle junk d (init_result room)) (run_threads junk room ds)
    where
      go :
          (o : Option Result) (p : Option (List Result))
          → o ≡ some r
          → p ≡ some rs
          → (elim o [ none ↦ none | some q ↦ elim p [ none ↦ none | some qs ↦ some (q ∷ qs) ] ])
            ≡ some (r ∷ rs)
      go o p e f = rw (e, f)

  -- A thread in front of others.
  Spells-cons :
      (d : ThreadData) (ds : List ThreadData) (cs : List ℕ)
      → d.start_offset ≤ d.end_offset
      → d.end_offset ≤ length d.file_data
      → Spells (run_threads junk room ds) cs
      → Spells
          (run_threads junk room (d ∷ ds))
          (slice d.start_offset (d.end_offset - d.start_offset) d.file_data ++ cs)
  Spells-cons d ds cs order inside (rs, e, spelt) =
      let part : List ℕ = slice d.start_offset (d.end_offset - d.start_offset) d.file_data in
      let (r, f, es) = new_thread d order inside in
      (
        r ∷ rs,
        run_threads-cons d ds r rs f e,
        λ l.
            ap join (append_assoc r.entries (all_entries rs) l)
            ∙ ap (λ k. join (k ++ (all_entries rs ++ l))) es
            ∙ join-runs part (all_entries rs ++ l)
            ∙ ap (extend part) (spelt l)
            ∙ sym (extend-append part cs (join l)),
      )

  -- The threads of a file from the part `i` on.
  parts :
      (cs : List ℕ) (chunk n i : ℕ)
      → chunk * i + chunk * suc n ≤ length cs
      → Spells (run_threads junk room (init_threads cs chunk i (suc n))) (drop (chunk * i) cs)
  unfolding init_threads
  parts cs chunk zero i inside =
      let d : ThreadData = record {
        start_offset = chunk * i;
        end_offset = length cs;
        file_data = cs;
      } in
      let nothing : Spells (run_threads junk room []) [] =
        ([], unfold run_threads in refl, λ l. refl) in
      let size : ℕ = length cs - chunk * i in
      subst (Spells (run_threads junk room (d ∷ [])))
        (ap (λ t. slice (chunk * i) size cs ++ t)
            (sym (drop_all (chunk * i + size) cs (omega arith)))
          ∙ slice-drop (chunk * i) size cs)
        (Spells-cons d [] [] (omega arith) (omega arith) nothing)
  parts cs chunk (suc n) i inside =
      let d : ThreadData = record {
        start_offset = chunk * i;
        end_offset = chunk * (i + 1);
        file_data = cs;
      } in
      let size : ℕ = chunk * (i + 1) - chunk * i in
      let more : (suc n == 0) ≡ false = ground arith in
      let next : chunk * i + (chunk * (i + 1) - chunk * i) ≡ chunk * (i + 1) = omega arith in
      rw more (
        subst (Spells (run_threads junk room (d ∷ init_threads cs chunk (i + 1) (suc n))))
          (ap (λ t. slice (chunk * i) size cs ++ drop t cs) (sym next)
            ∙ slice-drop (chunk * i) size cs)
          (Spells-cons d (init_threads cs chunk (i + 1) (suc n)) (drop (chunk * (i + 1)) cs)
            (omega arith) (omega arith) (parts cs chunk n (i + 1) (omega arith))))

  -- The threads of a file of a byte at least, one thread at least, return results whose entries,
  -- joined, spell the file, also if it holds fewer bytes than threads.
  pub per_file-Spells :
      (num_threads : ℕ) (cs : List ℕ)
      → 0 < num_threads
      → 0 < length cs
      → length cs < 2 ^ 31
      → Spells (per_file junk room num_threads cs) cs
  unfolding per_file
  per_file-Spells zero cs h some_byte short = absurd (omega arith)
  per_file-Spells (suc n) cs h some_byte short =
      let bytes : ltb 0 (length cs) ≡ true = ground arith in
      let whole : length cs / suc n * suc n ≤ length cs = div-mul-le_self (length cs) (suc n) in
      let chunk : ℕ = length cs / suc n in
      let from_start : length cs / suc n * 0 ≡ 0 = omega arith in
      rw (bytes, chunks_fit-small (length cs) (suc n) h short)
        (subst (Spells (run_threads junk room (init_threads cs chunk 0 (suc n))))
          (ap (λ k. drop k cs) from_start) (parts cs (length cs / suc n) n 0 (omega arith)))
