-- ===== src/Compress/Chunks.antt =====
-- How the programs with threads cut a file: the bounds of `int chunk` and of its products with the
-- numbers of the threads, and conditions on the files.
use native.Mathlib.Nat.{div-mul-le_self}
use wpi_operating_systems.Base.{
  ℕ, zero, suc, ◌-◌, ◌*◌, ◌/◌, ◌^◌, ◌≤◌, ◌<◌, ◌≡◌, Bool, true, ◌&&◌, ltb, List, [], ◌∷◌, arith,
  length,
}

-- Whether `chunk = size / n` and its products with numbers below `n`, which the programs with threads
-- compute, are an `int`.
unfoldable pub chunks_fit : ℕ → ℕ → Bool
chunks_fit size n = ltb (size / n) (2 ^ 31) && ltb (size / n * (n - 1)) (2 ^ 31)

pub chunks_fit-small : (size n : ℕ) → 0 < n → size < 2 ^ 31 → chunks_fit size n ≡ true
unfolding chunks_fit
chunks_fit-small size zero some_part small = absurd (omega arith)
chunks_fit-small size (suc n) some_part small =
    products (size / suc n) (div-mul-le_self size (suc n))
  where
    products :
        (q : ℕ) → q * suc n ≤ size → (ltb q (2 ^ 31) && ltb (q * (suc n - 1)) (2 ^ 31)) ≡ true
    products q le =
        let part : q ≤ size = omega arith in
        let less : suc n - 1 ≡ n = omega arith in
        let rest : q * n ≤ size = omega arith in rw less (ground arith)

-- every file holds a byte
abbrev pub NoneEmpty : List (List ℕ) → Type 0
NoneEmpty [] = Unit {0}
NoneEmpty (f ∷ fs) = (0 < length f) × NoneEmpty fs

-- every file is shorter than 2 ^ 31 bytes
abbrev pub AllShort : List (List ℕ) → Type 0
AllShort [] = Unit {0}
AllShort (f ∷ fs) = (length f < 2 ^ 31) × AllShort fs
