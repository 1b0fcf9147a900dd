-- ===== src/Compress/Runs.antt =====
-- Runs of equal bytes, what the encoders should write for them, and how runs meet at a boundary.
use Prim.Native.Char.{code}
use Prim.Native.String.{String}
use wpi_operating_systems.Base.{
  ℕ, zero, suc, ◌+◌, ◌/◌, ◌%◌, ◌≡◌, refl, ap, ◌∙◌, List, [], ◌∷◌, ◌++◌, append_assoc, ◌==◌,
  if◌then◌else◌, arith, replicate,
}

-- a count and the byte that it repeats
abbrev pub Entry : Type 0
Entry = ℕ × ℕ

-- The four bytes of `fwrite(&count, 4, 1, stdout)` on a little-endian machine.
abbrev pub le4 : ℕ → List ℕ
le4 n = n % 256 ∷ n / 0x100 % 256 ∷ n / 0x1_0000 % 256 ∷ n / 0x100_0000 % 256 ∷ []

unfoldable pub encode : List Entry → List ℕ
encode [] = []
encode ((n, c) ∷ r) = le4 n ++ (c ∷ encode r)

-- `n` bytes `c` in front of a list of runs
abbrev pub push : ℕ → ℕ → List Entry → List Entry
push n c [] = (n, c) ∷ []
push n c ((k, d) ∷ r) = if c == d then (n + k, d) ∷ r else (n, c) ∷ (k, d) ∷ r

-- The runs of a text: neighbouring runs have different bytes.
unfoldable pub runs : List ℕ → List Entry
runs [] = []
runs (c ∷ cs) = push 1 c (runs cs)

unfoldable pub expand : List Entry → List ℕ
expand [] = []
expand ((n, c) ∷ r) = replicate n c ++ expand r

unfoldable pub codes : String → List ℕ
codes String.[] = []
codes (String.◌∷◌ c s) = code c ∷ codes s

pub encode-append : (r s : List Entry) → encode (r ++ s) ≡ encode r ++ encode s
unfolding encode
encode-append [] s = refl
encode-append ((n, c) ∷ r) s = rw (encode-append r s)

-- One more byte of the current run, or the start of the next.
pub push_step :
    (n c d : ℕ) (r : List Entry)
    → push n c (push 1 d r) ≡ (if d == c then push (n + 1) c r else (n, c) ∷ push 1 d r)
push_step n c d [] = ground arith
push_step n c d ((k, e) ∷ r) = ground arith

replicate-add : (n k c : ℕ) → replicate (n + k) c ≡ replicate n c ++ replicate k c
replicate-add zero k c = let e : zero + k ≡ k = omega arith in rw e
replicate-add (suc n) k c =
    let e : suc n + k ≡ suc (n + k) = omega arith in rw (e, replicate-add n k c)

expand-push : (n c : ℕ) (r : List Entry) → expand (push n c r) ≡ replicate n c ++ expand r
unfolding expand
expand-push n c [] = refl
expand-push n c ((k, d) ∷ r) =
    ground (arith, replicate-add n k c, append_assoc (replicate n c) (replicate k c) (expand r))

-- The runs of a text spell it.
pub expand-runs : (cs : List ℕ) → expand (runs cs) ≡ cs
unfolding expand runs
expand-runs [] = refl
expand-runs (c ∷ cs) = expand-push 1 c (runs cs) ∙ ap (λ t. c ∷ t) (expand-runs cs)

-- All but the last.
abbrev pub drop_last {ℓ} : {A : Type ℓ} → List A → List A
drop_last [] = []
drop_last (x ∷ []) = []
drop_last (x ∷ y ∷ r) = x ∷ drop_last (y ∷ r)

pub runs_step :
    (n c d : ℕ) (cs : List ℕ)
    → push n c (runs (d ∷ cs))
      ≡ (if d == c then push (n + 1) c (runs cs) else (n, c) ∷ runs (d ∷ cs))
unfolding runs
runs_step n c d cs = push_step n c d (runs cs)

pub drop_last-runs :
    (e : Entry) (d : ℕ) (cs : List ℕ)
    → drop_last (e ∷ runs (d ∷ cs)) ≡ e ∷ drop_last (runs (d ∷ cs))
unfolding runs
drop_last-runs e d cs = go (runs cs)
  where
    go : (r : List Entry) → drop_last (e ∷ push 1 d r) ≡ e ∷ drop_last (push 1 d r)
    go [] = refl
    go ((k, f) ∷ r) = ground arith
