-- ===== src/Compress/SerialWzip/Encodes.antt =====
-- The serial wzip of the concurrency project writes the runs of its files.
use wpi_operating_systems.Base.{
  ℕ, ◌+◌, ◌%◌, ◌^◌, ◌≤◌, ◌<◌, ◌≡◌, refl, sym, ◌≢◌, ◌∙◌, ap, Bool-cases, inl, inr, some, List, [],
  ◌∷◌, ◌++◌, append_assoc, map, ◌==◌, if◌then◌else◌, arith, length, length-append,
}
use wpi_operating_systems.Compress.Runs.{le4, encode, push, runs, runs_step}
use wpi_operating_systems.Compress.Wzip.Encodes.{flatten}
use wpi_operating_systems.Compress.SerialWzip.{
  Rle, write_run, rle_char, rle_loop, rle, rle_files, main,
}

abbrev pending : ℕ → ℕ → List ℕ → Rle
pending n p out = record { count = n; current = p; out = out }

step :
    (n p : ℕ) (out : List ℕ) (c : ℕ) (cs : List ℕ)
    → n + 1 < 2 ^ 32
    → rle_loop (pending n p out) (c ∷ cs)
      ≡ rle_loop
          (if c == p then pending (n + 1) p out else pending 1 c (out ++ (le4 n ++ (p ∷ []))))
          cs
unfolding rle_loop rle_char
step n p out c cs h = elim (Bool-cases (c == p)) [
  | inl y ↦ let e : (n + 1) % 2 ^ 32 ≡ n + 1 = omega arith in rw (y, e)
  | inr y ↦ rw y
]

-- With a pending run the loop writes the runs of that run and the rest, as long as no count wraps.
write_run-rle_loop :
    (n p : ℕ) (out cs : List ℕ)
    → n + length cs < 2 ^ 32
    → write_run (rle_loop (pending n p out) cs) ≡ out ++ encode (push n p (runs cs))
unfolding encode runs
write_run-rle_loop n p out [] h = unfold rle_loop write_run in refl
write_run-rle_loop n p out (c ∷ cs) h = elim (Bool-cases (c == p)) [
  | inl y ↦
      rw (step n p out c cs (omega arith), runs_step n p c cs, y)
        (write_run-rle_loop (n + 1) p out cs (omega arith))
  | inr y ↦
      rw (step n p out c cs (omega arith), runs_step n p c cs, y)
        (write_run-rle_loop 1 c (out ++ (le4 n ++ (p ∷ []))) cs (omega arith)
          ∙ append_assoc out (le4 n ++ (p ∷ [])) (encode (push 1 c (runs cs))))
]

rle_loop-append : (s : Rle) (xs ys : List ℕ) → rle_loop s (xs ++ ys) ≡ rle_loop (rle_loop s xs) ys
unfolding rle_loop
rle_loop-append s [] ys = refl
rle_loop-append s (x ∷ xs) ys = rle_loop-append (rle_char s x) xs ys

-- A run is pending after the loop if one was before.
StillPending : ℕ → Rle → Type 0
StillPending b s = (n : ℕ) × (p : ℕ) × (out : List ℕ) × (s ≡ pending n p out) × (0 < n) × (n ≤ b)

loop_state :
    (n p : ℕ) (out cs : List ℕ)
    → 0 < n
    → n + length cs < 2 ^ 32
    → StillPending (n + length cs) (rle_loop (pending n p out) cs)
unfolding StillPending
loop_state n p out [] pos h = unfold rle_loop in (n, p, out, refl, pos, omega arith)
loop_state n p out (c ∷ cs) pos h =
    rw (step n p out c cs (omega arith)) (elim (Bool-cases (c == p)) [
      | inl y ↦
          let (n', p', out', e, pos', le) =
            loop_state (n + 1) p out cs (omega arith) (omega arith) in
          rw y (n', p', out', e, pos', omega arith)
      | inr y ↦
          let (n', p', out', e, pos', le) =
            loop_state 1 c (out ++ (le4 n ++ (p ∷ []))) cs (omega arith) (omega arith) in
          rw y (n', p', out', e, pos', omega arith)
    ])

rle-pending :
    (n p : ℕ) (out cs : List ℕ) → 0 < n → rle (pending n p out) cs ≡ rle_loop (pending n p out) cs
unfolding rle
rle-pending n p out [] pos = unfold rle_loop in refl
rle-pending n p out (c ∷ cs) pos = ground arith

files_pending :
    (fs : List (List ℕ)) (n p : ℕ) (out : List ℕ)
    → 0 < n
    → n + length (flatten fs) < 2 ^ 32
    → rle_files (pending n p out) (map some fs)
      ≡ record { stdout = write_run (rle_loop (pending n p out) (flatten fs)); status = 0 }
unfolding rle_files StillPending
files_pending [] n p out pos h = unfold rle_loop in refl
files_pending (f ∷ fs) n p out pos h =
    let len = length-append f (flatten fs) in
    let (n', p', out', e, pos', le) = loop_state n p out f pos (omega arith) in
    let all : rle_loop (pending n p out) (f ++ flatten fs)
        ≡ rle_loop (pending n' p' out') (flatten fs) =
      rle_loop-append (pending n p out) f (flatten fs) ∙ ap (λ s. rle_loop s (flatten fs)) e in
    ap (λ s. rle_files s (map some fs)) (rle-pending n p out f pos ∙ e)
    ∙ files_pending fs n' p' out' pos' (omega arith)
    ∙ ap (λ s. record { stdout = write_run s; status = 0 }) (sym all)

abbrev fresh : Rle
fresh = record { count = 0; current = 0; out = [] }

files_fresh :
    (fs : List (List ℕ))
    → flatten fs ≢ []
    → length (flatten fs) < 2 ^ 32
    → rle_files fresh (map some fs) ≡ record { stdout = encode (runs (flatten fs)); status = 0 }
unfolding rle_files StillPending
files_fresh [] ne h = absurd (ne refl)
files_fresh ([] ∷ fs) ne h = unfold rle in files_fresh fs ne h
files_fresh ((c ∷ cs) ∷ fs) ne h =
    let len = length-append cs (flatten fs) in
    let (n', p', out', e, pos', le) = loop_state 1 c [] cs (omega arith) (omega arith) in
    let loop : rle_loop (pending 1 c []) (cs ++ flatten fs)
        ≡ rle_loop (pending n' p' out') (flatten fs) =
      rle_loop-append (pending 1 c []) cs (flatten fs) ∙ ap (λ s. rle_loop s (flatten fs)) e in
    let text : write_run (rle_loop (pending n' p' out') (flatten fs))
        ≡ encode (runs ((c ∷ cs) ++ flatten fs)) =
      ap write_run (sym loop)
      ∙ write_run-rle_loop 1 c [] (cs ++ flatten fs) (omega arith)
      ∙ unfold runs in refl in
    first c cs fs
    ∙ ap (λ s. rle_files s (map some fs)) e
    ∙ files_pending fs n' p' out' pos' (omega arith)
    ∙ ap (λ t. record { stdout = t; status = 0 }) text
  where
    first :
        (c : ℕ) (cs : List ℕ) (fs : List (List ℕ))
        → rle_files fresh (map some ((c ∷ cs) ∷ fs))
          ≡ rle_files (rle_loop (pending 1 c []) cs) (map some fs)
    first c cs fs = unfold rle in refl

-- The serial wzip of the concurrency project, on files that open and hold 1 to 2 ^ 32 - 1 bytes in
-- all, writes what the utility wzip writes: the runs of all files taken together.
pub main-encode-runs :
    (f : List ℕ) (fs : List (List ℕ))
    → flatten (f ∷ fs) ≢ []
    → length (flatten (f ∷ fs)) < 2 ^ 32
    → main (map some (f ∷ fs)) ≡ record { stdout = encode (runs (flatten (f ∷ fs))); status = 0 }
unfolding main
main-encode-runs f fs ne h = files_fresh (f ∷ fs) ne h
