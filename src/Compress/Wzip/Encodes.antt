-- ===== src/Compress/Wzip/Encodes.antt =====
-- wzip writes the runs of all its files taken together.
use wpi_operating_systems.Base.{
  ℕ, ◌+◌, ◌≡◌, refl, sym, ◌∙◌, ap, Bool-cases, inl, inr, Option, none, some, List, [], ◌∷◌, ◌++◌,
  append_assoc, append-nil, map, ◌==◌, if◌then◌else◌, arith,
}
use wpi_operating_systems.Compress.Runs.{
  le4, encode, push, runs, runs_step, drop_last, drop_last-runs,
}
use wpi_operating_systems.Compress.Wzip.{Zip, cannot_open, flush, zip_char, zip_file, zip_from, zip}

-- The bytes of all files, one behind the other.
abbrev pub flatten : List (List ℕ) → List ℕ
flatten [] = []
flatten (f ∷ fs) = f ++ flatten fs

zip_file-append : (z : Zip) (xs ys : List ℕ) → zip_file z (xs ++ ys) ≡ zip_file (zip_file z xs) ys
unfolding zip_file
zip_file-append z [] ys = refl
zip_file-append z (x ∷ xs) ys = zip_file-append (zip_char z x) xs ys

-- A state with a pending run of `n` bytes `p`.
abbrev pending : ℕ → ℕ → List ℕ → Zip
pending n p out = record { prev_char = some p; count = n; out = out }

-- What a round of the loop does with a pending run.
zip_char-pending :
    (n p : ℕ) (out : List ℕ) (c : ℕ)
    → zip_char (pending n p out) c
      ≡ (if c == p then pending (n + 1) p out else pending 1 c (out ++ (le4 n ++ (p ∷ []))))
unfolding zip_char
zip_char-pending n p out c = ground arith

step :
    (n p : ℕ) (out : List ℕ) (c : ℕ) (cs : List ℕ)
    → zip_file (pending n p out) (c ∷ cs)
      ≡ zip_file
          (if c == p then pending (n + 1) p out else pending 1 c (out ++ (le4 n ++ (p ∷ []))))
          cs
unfolding zip_file
step n p out c cs = ap (λ z. zip_file z cs) (zip_char-pending n p out c)

-- With a pending run the loop writes the runs of that run and the rest.
flush-zip_file :
    (n p : ℕ) (out cs : List ℕ)
    → flush (zip_file (pending n p out) cs) ≡ out ++ encode (push n p (runs cs))
unfolding encode runs
flush-zip_file n p out [] = unfold zip_file flush in refl
flush-zip_file n p out (c ∷ cs) = elim (Bool-cases (c == p)) [
  | inl y ↦ rw (step n p out c cs, runs_step n p c cs, y) (flush-zip_file (n + 1) p out cs)
  | inr y ↦
      rw (step n p out c cs, runs_step n p c cs, y)
        (flush-zip_file 1 c (out ++ (le4 n ++ (p ∷ []))) cs
          ∙ append_assoc out (le4 n ++ (p ∷ [])) (encode (push 1 c (runs cs))))
]

-- The same for what is written before the last run is complete.
out-zip_file :
    (n p : ℕ) (out cs : List ℕ)
    → (zip_file (pending n p out) cs).out ≡ out ++ encode (drop_last (push n p (runs cs)))
unfolding encode runs
out-zip_file n p out [] = unfold zip_file in sym (append-nil out)
out-zip_file n p out (c ∷ cs) = elim (Bool-cases (c == p)) [
  | inl y ↦ rw (step n p out c cs, runs_step n p c cs, y) (out-zip_file (n + 1) p out cs)
  | inr y ↦
      rw (step n p out c cs, runs_step n p c cs, y, drop_last-runs)
        (out-zip_file 1 c (out ++ (le4 n ++ (p ∷ []))) cs
          ∙ append_assoc out (le4 n ++ (p ∷ [])) (encode (drop_last (push 1 c (runs cs)))))
]

abbrev fresh : Zip
fresh = record { prev_char = none; count = 0; out = [] }

from_fresh :
    (cs : List ℕ)
    → (flush (zip_file fresh cs) ≡ encode (runs cs))
      × ((zip_file fresh cs).out ≡ encode (drop_last (runs cs)))
unfolding runs encode zip_file
from_fresh [] = unfold flush in (refl, refl)
from_fresh (c ∷ cs) = unfold zip_char flush in (flush-zip_file 1 c [] cs, out-zip_file 1 c [] cs)

zip_from_all :
    (z : Zip) (fs : List (List ℕ)) (rest : List (Option (List ℕ)))
    → zip_from z (map some fs ++ rest) ≡ zip_from (zip_file z (flatten fs)) rest
unfolding zip_from
zip_from_all z [] rest = unfold zip_file in refl
zip_from_all z (f ∷ fs) rest = rw zip_file-append (zip_from_all (zip_file z f) fs rest)

-- When every file opens, wzip writes the runs of all files taken together as one text, each as its
-- count in four bytes and its byte, and exits with 0.
pub zip-encode-runs :
    (fs : List (List ℕ))
    → zip (map some fs) ≡ record { stdout = encode (runs (flatten fs)); status = 0 }
unfolding zip
zip-encode-runs fs =
    ap (zip_from fresh) (sym (append-nil (map some fs)))
    ∙ zip_from_all fresh fs []
    ∙ unfold zip_from in ap (λ t. record { stdout = t; status = 0 }) (from_fresh (flatten fs)).0

-- When a file does not open, wzip has written the runs of the files before it, except for the last
-- run, which is lost; it prints the message behind them, exits with 1 and reads no further file.
pub zip-cannot_open :
    (fs : List (List ℕ)) (rest : List (Option (List ℕ)))
    → zip (map some fs ++ (none ∷ rest))
      ≡ record { stdout = encode (drop_last (runs (flatten fs))) ++ cannot_open; status = 1 }
unfolding zip
zip-cannot_open fs rest =
    zip_from_all fresh fs (none ∷ rest)
    ∙ unfold zip_from in
      ap (λ t. record { stdout = t ++ cannot_open; status = 1 }) (from_fresh (flatten fs)).1
