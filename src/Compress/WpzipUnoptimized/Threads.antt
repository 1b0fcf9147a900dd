-- ===== src/Compress/WpzipUnoptimized/Threads.antt =====
-- One thread: it returns, within its arrays, with the runs of its part.
use wpi_operating_systems.Base.{
  ℕ, zero, suc, ◌+◌, ◌-◌, ◌*◌, ◌≤◌, ◌<◌, ◌≡◌, refl, sym, ◌∙◌, ap, Bool-cases, inl, inr, Option,
  none, some, List, [], ◌∷◌, ◌++◌, append_assoc, append-nil, ◌==◌, ltb, arith, length,
  length-append, get_or,
}
use wpi_operating_systems.Compress.Runs.{Entry, push, runs, runs_step}
use wpi_operating_systems.Compress.Wpzip.Threads.{slice, slice-suc}
use wpi_operating_systems.Compress.WpzipUnoptimized.{
  Result, add_entry, ThreadData, Scan, scan_start, scan_step, scan_loop, scan_end, read_first,
  thread_rle,
}

-- There is room for an entry, now or when the arrays have been doubled.
pub record Holds (r : Result) : Type 0 where
  pub some_room : 0 < r.capacity
  pub fits : length r.entries ≤ r.capacity

-- `o` is a result with the entries `es` behind those of `r`.
abbrev pub Gives : Option Result → Result → List Entry → Type 0
Gives o r es = (s : Result) × (o ≡ some s) × (s.entries ≡ r.entries ++ es) × Holds s

add_entry-Gives : (r : Result) (n c : ℕ) → Holds r → Gives (add_entry r n c) r ((n, c) ∷ [])
add_entry-Gives r n c h = elim (Bool-cases (length r.entries == r.capacity)) [
  | inl y ↦ (
    record { entries = r.entries ++ ((n, c) ∷ []); capacity = r.capacity * 2 },
    unfold add_entry in ground (arith, h.some_room),
    refl,
    record {
      some_room = omega (arith, h.some_room);
      fits = ground (arith, length-append r.entries ((n, c) ∷ []), h.some_room);
    },
  )
  | inr y ↦ (
    record r { entries = r.entries ++ ((n, c) ∷ []) },
    unfold add_entry in ground (arith, h.some_room, h.fits),
    refl,
    record {
      some_room = h.some_room;
      fits = ground (arith, length-append r.entries ((n, c) ∷ []), h.fits);
    },
  )
]

Gives-more :
    (o : Option Result) (r s : Result) (es fs : List Entry)
    → s.entries ≡ r.entries ++ es
    → Gives o s fs
    → Gives o r (es ++ fs)
Gives-more o r s es fs e (t, at, same, h) =
    (t, at, same ∙ ap (λ l. l ++ fs) e ∙ append_assoc r.entries es fs, h)

module _ (junk : ℕ) (d : ThreadData) where
  abbrev ended : Option Scan → Option Result
  ended none = none
  ended (some s) = scan_end junk d s

  -- the loop behind a round
  abbrev loop_from : ℕ → Option Scan → Option Scan
  loop_from rounds none = none
  loop_from rounds (some s) = scan_loop junk rounds d s

  scan_loop-suc :
      (rounds : ℕ) (s : Scan)
      → scan_loop junk (suc rounds) d s ≡ loop_from rounds (scan_step junk d s)
  unfolding scan_loop
  scan_loop-suc rounds s = go (scan_step junk d s)
    where
      go :
          (o : Option Scan)
          → (elim o [ none ↦ none | some t ↦ scan_loop junk rounds d t ]) ≡ loop_from rounds o
      go none = refl
      go (some t) = refl

  -- The loop and the last entry add the pending run and the runs of the rest of the part.
  scan_loop-Gives :
      (rounds : ℕ) (s : Scan)
      → Holds s.result
      → 0 < s.count
      → s.pos + rounds ≡ d.end_offset
      → d.end_offset ≤ length d.file_data
      → Gives
          (ended (scan_loop junk rounds d s))
          s.result
          (push s.count s.current (runs (slice s.pos rounds d.file_data)))
  scan_loop-Gives zero s h some_count at inside =
      let last : ended (scan_loop junk zero d s) ≡ add_entry s.result s.count s.current =
        unfold scan_loop scan_end in ground arith in
      let (t, e, same, h') = add_entry-Gives s.result s.count s.current h in
      (t, last ∙ e, same ∙ unfold runs in refl, h')
  scan_loop-Gives (suc rounds) s h some_count at inside =
      let c : ℕ = get_or d.file_data s.pos junk in
      let rest : List ℕ = slice (s.pos + 1) rounds d.file_data in
      let text : push s.count s.current (runs (slice s.pos (suc rounds) d.file_data))
          ≡ push s.count s.current (runs (c ∷ rest)) =
        ap (λ l. push s.count s.current (runs l))
          (slice-suc junk s.pos rounds d.file_data (omega arith)) in
      let same = runs_step s.count s.current c rest in
      elim (Bool-cases (c == s.current)) [
        | inl y ↦
            let next : Scan = record s { pos = s.pos + 1; count = s.count + 1 } in
            let stepped : scan_step junk d s ≡ some next = unfold scan_step in rw y in
            let (t, e, es, h') = scan_loop-Gives rounds next h (omega arith) (omega arith) inside in
            (
              t,
              ap ended (scan_loop-suc rounds s ∙ ap (loop_from rounds) stepped) ∙ e,
              es ∙ ap (λ l. s.result.entries ++ l) (sym (text ∙ same ∙ rw y)),
              h',
            )
        | inr y ↦
            let (r, added, es, h') = add_entry-Gives s.result s.count s.current h in
            let next : Scan = record { pos = s.pos + 1; count = 1; current = c; result = r } in
            let stepped : scan_step junk d s ≡ some next = unfold scan_step in rw (y, added) in
            let (t, e, all, h'') =
              Gives-more (ended (scan_loop junk rounds d next)) s.result r
                ((s.count, s.current) ∷ []) (push 1 c (runs rest)) es
                (scan_loop-Gives rounds next h' (omega arith) (omega arith) inside) in
            (
              t,
              ap ended (scan_loop-suc rounds s ∙ ap (loop_from rounds) stepped) ∙ e,
              all
                  ∙ ap (λ l. s.result.entries ++ l)
                      (sym (text ∙ same ∙ rw y (unfold runs in refl))),
              h'',
            )
      ]

  thread_rle-ended :
      (r t : Result)
      → Holds t
      → ended (scan_loop junk (d.end_offset - (d.start_offset + 1)) d (scan_start junk d r))
        ≡ some t
      → thread_rle junk d r ≡ some t
  unfolding thread_rle
  thread_rle-ended r t h =
      go (scan_loop junk (d.end_offset - (d.start_offset + 1)) d (scan_start junk d r))
    where
      first : (read_first t) ≡ some t
      first = unfold read_first in ground (arith, h.some_room)

      go :
          (o : Option Scan)
          → ended o ≡ some t
          → (elim o [
            | none ↦ none
            | some s ↦ elim (scan_end junk d s) [ none ↦ none | some u ↦ read_first u ]
          ])
            ≡ some t
      go none e = e
      go (some s) e = rw e first

  -- A thread on a part of the file, which may be empty, returns, stays within its arrays, and adds
  -- the runs of its part.
  pub thread_rle-Gives :
      (r : Result)
      → Holds r
      → d.start_offset ≤ d.end_offset
      → d.end_offset ≤ length d.file_data
      → Gives
          (thread_rle junk d r)
          r
          (runs (slice d.start_offset (d.end_offset - d.start_offset) d.file_data))
  unfolding scan_start
  thread_rle-Gives r h order inside = elim (Bool-cases (ltb d.start_offset d.end_offset)) [
    | inl y ↦
        let rounds : ℕ = d.end_offset - (d.start_offset + 1) in
        let size : d.end_offset - d.start_offset ≡ suc rounds = ground arith in
        let text = slice-suc junk d.start_offset rounds d.file_data (ground arith) in
        let (t, e, es, h') =
          scan_loop-Gives rounds (scan_start junk d r) h (omega arith) (ground arith) inside in
        (
          t,
          thread_rle-ended r t h' e,
          es
              ∙ ap (λ l. r.entries ++ l)
                  (sym (
                    ap (λ n. runs (slice d.start_offset n d.file_data)) size
                    ∙ ap runs text
                    ∙ unfold runs in refl)),
          h',
        )
    | inr y ↦
        let size : d.end_offset - d.start_offset ≡ 0 = ground arith in
        let rounds : d.end_offset - (d.start_offset + 1) ≡ 0 = ground arith in
        let last : ended (scan_loop junk 0 d (scan_start junk d r)) ≡ some r =
          unfold scan_loop scan_start scan_end in ground arith in
        (
          r,
          thread_rle-ended r r h
              (ap (λ n. ended (scan_loop junk n d (scan_start junk d r))) rounds ∙ last),
          sym (
              ap (λ n. r.entries ++ runs (slice d.start_offset n d.file_data)) size
              ∙ (unfold runs in append-nil r.entries)),
          h,
        )
  ]
