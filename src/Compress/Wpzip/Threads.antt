-- ===== src/Compress/Wpzip/Threads.antt =====
-- One thread: what `thread_rle` leaves in its result, and that it stays within its arrays.
use wpi_operating_systems.Base.{
  ℕ, zero, suc, ◌+◌, ◌-◌, ◌≤◌, ◌<◌, ◌≡◌, refl, ◌∙◌, ap, Bool-cases, inl, inr, List, [], ◌∷◌, ◌++◌,
  append_assoc, ◌==◌, arith, length, length-append, get_or, take, drop,
}
use wpi_operating_systems.Compress.Runs.{push, runs, runs_step}
use wpi_operating_systems.Compress.Wpzip.{
  Result, add_entry, ThreadData, Scan, scan_start, scan_step, scan_loop, scan_end, thread_rle,
}

-- The bytes of a text from `s` on, `n` of them.
abbrev pub slice : ℕ → ℕ → List ℕ → List ℕ
slice s n cs = take n (drop s cs)

-- One byte of a slice, and the rest.
pub slice-suc :
    (junk s n : ℕ) (cs : List ℕ)
    → s < length cs
    → slice s (suc n) cs ≡ get_or cs s junk ∷ slice (s + 1) n cs
slice-suc junk s n [] h = absurd (omega arith)
slice-suc junk zero n (c ∷ cs) h = refl
slice-suc junk (suc s) n (c ∷ cs) h =
    let e : suc s + 1 ≡ suc (s + 1) = omega arith in rw e (slice-suc junk s n cs (omega arith))

module _ (junk : ℕ) (d : ThreadData) where
  -- The entries that the loop and the final entry add: the runs of the pending run and the slice.
  scan_end-scan_loop :
      (rounds : ℕ) (s : Scan)
      → 0 < s.count
      → s.pos + rounds ≡ d.end_offset
      → d.end_offset ≤ length d.file_data
      → (scan_end junk d (scan_loop junk rounds d s)).entries
        ≡ s.result.entries ++ push s.count s.current (runs (slice s.pos rounds d.file_data))
  unfolding scan_loop
  scan_end-scan_loop zero s some_count at inside = unfold scan_end runs in ground arith
  scan_end-scan_loop (suc rounds) s some_count at inside =
      let c : ℕ = get_or d.file_data s.pos junk in
      let rest : List ℕ = slice (s.pos + 1) rounds d.file_data in
      let text = slice-suc junk s.pos rounds d.file_data (omega arith) in
      let same = runs_step s.count s.current c rest in
      elim (Bool-cases (c == s.current)) [
        | inl y ↦
            let next : Scan = record s { pos = s.pos + 1; count = s.count + 1 } in
            let stepped : scan_step junk d s ≡ next = unfold scan_step in rw y in
            rw (text, same, stepped, y)
              (scan_end-scan_loop rounds next (omega arith) (omega arith) inside)
        | inr y ↦
            let next : Scan = record {
              pos = s.pos + 1;
              count = 1;
              current = c;
              result = add_entry s.result s.count s.current;
            } in
            let stepped : scan_step junk d s ≡ next = unfold scan_step in rw y in
            let entries : (add_entry s.result s.count s.current).entries
                ≡ s.result.entries ++ ((s.count, s.current) ∷ []) =
              unfold add_entry in refl in
            rw (text, same, stepped, y)
              (scan_end-scan_loop rounds next (omega arith) (omega arith) inside
                ∙ ap (λ t. t ++ push 1 c (runs rest)) entries
                ∙ append_assoc s.result.entries ((s.count, s.current) ∷ []) (push 1 c (runs rest))
                ∙ unfold runs in refl)
      ]

-- A thread with a part that is not empty and lies in the file leaves the runs of that part behind
-- the entries that its result had.
pub thread_rle-runs :
    (junk : ℕ) (d : ThreadData) (r : Result)
    → d.start_offset < d.end_offset
    → d.end_offset ≤ length d.file_data
    → (thread_rle junk d r).entries
      ≡ r.entries ++ runs (slice d.start_offset (d.end_offset - d.start_offset) d.file_data)
unfolding thread_rle scan_start
thread_rle-runs junk d r some_part inside =
    let rounds : ℕ = d.end_offset - (d.start_offset + 1) in
    let size : d.end_offset - d.start_offset ≡ suc rounds = omega arith in
    rw (size, slice-suc junk d.start_offset rounds d.file_data (omega arith))
      (scan_end-scan_loop junk d rounds (scan_start junk d r) (omega arith) (omega arith) inside
        ∙ unfold runs in refl)

-- The arrays hold the entries that are counted.
pub record Holds (r : Result) : Type 0 where
  pub some_room : 0 < r.capacity
  pub fits : length r.entries ≤ r.capacity

pub add_entry-Holds : {r : Result} (count c : ℕ) → Holds r → Holds (add_entry r count c)
unfolding add_entry
add_entry-Holds {r} count c h = ground (arith, length-append r.entries ((count, c) ∷ []))

start-add_entry : (r : Result) (count c : ℕ) → (add_entry r count c).start ≡ r.start
unfolding add_entry
start-add_entry r count c = refl

-- Whatever the part, a thread writes inside its arrays and leaves `start` alone.
abbrev pub Keeps : Result → Result → Type 0
Keeps r s = Holds s × (s.start ≡ r.start)

module _ (junk : ℕ) (d : ThreadData) where
  step-Keeps : (s : Scan) → Holds s.result → Keeps s.result (scan_step junk d s).result
  unfolding scan_step
  step-Keeps s h =
      ground
        (arith, add_entry-Holds s.count s.current h, start-add_entry s.result s.count s.current)

  loop-Keeps :
      (rounds : ℕ) (s : Scan) → Holds s.result → Keeps s.result (scan_loop junk rounds d s).result
  unfolding scan_loop
  loop-Keeps zero s h = (h, refl)
  loop-Keeps (suc rounds) s h =
      let (h', same) = step-Keeps s h in
      let (h'', same') = loop-Keeps rounds (scan_step junk d s) h' in (h'', same' ∙ same)

  end-Keeps : (s : Scan) → Holds s.result → Keeps s.result (scan_end junk d s)
  unfolding scan_end
  end-Keeps s h =
      ground
        (arith, add_entry-Holds s.count s.current h, start-add_entry s.result s.count s.current)

  -- `thread_rle` never writes past the arrays of its result, whatever its part of the file, since
  -- `add_entry` doubles full arrays, and it does not touch `start`.
  pub thread_rle-Holds : (r : Result) → Holds r → Keeps r (thread_rle junk d r)
  unfolding thread_rle scan_start
  thread_rle-Holds r h =
      let first : Scan = scan_start junk d r in
      let (h', same) = loop-Keeps (d.end_offset - (d.start_offset + 1)) first h in
      let (h'', same') =
        end-Keeps (scan_loop junk (d.end_offset - (d.start_offset + 1)) d first) h' in
      (h'', same' ∙ same)

-- A thread on an empty file reads one byte behind it and adds no entry.
pub thread_rle_empty :
    (junk : ℕ) (d : ThreadData) (r : Result)
    → d.start_offset ≡ 0
    → d.end_offset ≡ 0
    → thread_rle junk d r ≡ r
unfolding thread_rle scan_start scan_end scan_loop
thread_rle_empty junk d r s e = rw (s, e) refl
