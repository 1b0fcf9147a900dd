-- ===== src/Compress/Wunzip/RoundTrip.antt =====
-- wunzip undoes wzip.
use wpi_operating_systems.Base.{
  ℕ, suc, ◌+◌, ◌*◌, ◌/◌, ◌%◌, ◌^◌, ◌≤◌, ◌<◌, ◌≡◌, refl, ◌∙◌, ap, some, List, [], ◌∷◌, ◌++◌,
  append-nil, arith, map, length, replicate,
}
use wpi_operating_systems.Compress.Runs.{Entry, le4, encode, push, runs, expand, expand-runs}
use wpi_operating_systems.Compress.Wzip
use wpi_operating_systems.Compress.Wzip.Encodes.{flatten, zip-encode-runs}
use wpi_operating_systems.Compress.Wunzip.{
  main, start, repeat_char, unzip_char, unzip_file, unzip_files,
}

-- the count that four bytes stand for
word : ℕ → ℕ
word n =
    ((((0 + n % 256 * 2 ^ 0) % 2 ^ 32 + n / 0x100 % 256 * 2 ^ 8) % 2 ^ 32
          + n / 0x1_0000 % 256 * 2 ^ 16)
        % 2 ^ 32
      + n / 0x100_0000 % 256 * 2 ^ 24)
    % 2 ^ 32

word_le4 : (n : ℕ) → n < 2 ^ 32 → word n ≡ n
unfolding word
word_le4 n h = omega arith

-- One record of the encoded file.
unzip_record :
    (n c : ℕ) (rest : List ℕ)
    → n < 2 ^ 31
    → unzip_file start (le4 n ++ (c ∷ rest)) ≡ replicate n c ++ unzip_file start rest
unfolding unzip_file unzip_char word
unzip_record n c rest h = ap (λ t. t ++ unzip_file start rest) (short n c h)
  where
    short : (n c : ℕ) → n < 2 ^ 31 → repeat_char (word n) c ≡ replicate n c
    short n c h = rw (word_le4 n (omega arith)) (unfold repeat_char in ground arith)

-- every count is below `b`
abbrev CountsBelow : ℕ → List Entry → Type 0
CountsBelow b [] = Unit {0}
CountsBelow b ((n, c) ∷ r) = (n < b) × CountsBelow b r

unzip-encode : (r : List Entry) → CountsBelow (2 ^ 31) r → unzip_file start (encode r) ≡ expand r
unfolding encode expand
unzip-encode [] h = unfold unzip_file in refl
unzip-encode ((n, c) ∷ r) h =
    unzip_record n c (encode r) h.0 ∙ ap (λ t. replicate n c ++ t) (unzip-encode r h.1)

counts_mono : (a b : ℕ) (r : List Entry) → a ≤ b → CountsBelow a r → CountsBelow b r
counts_mono a b [] le h = tt
counts_mono a b ((n, c) ∷ r) le h = (omega arith, counts_mono a b r le h.1)

counts-runs : (cs : List ℕ) → CountsBelow (suc (length cs)) (runs cs)
unfolding runs
counts-runs [] = tt
counts-runs (c ∷ cs) = go (runs cs) (counts-runs cs)
  where
    go :
        (r : List Entry)
        → CountsBelow (suc (length cs)) r
        → CountsBelow (suc (suc (length cs))) (push 1 c r)
    go [] h = (omega arith, tt)
    go ((k, d) ∷ r) h =
        ground (arith, counts_mono (suc (length cs)) (suc (suc (length cs))) r (omega arith) h.1)

-- wunzip of what wzip wrote for files of fewer than 2 ^ 31 bytes in all gives back their bytes, one
-- file behind the other, and exits with 0.
pub main-zip :
    (fs : List (List ℕ))
    → length (flatten fs) < 2 ^ 31
    → main (some (Wzip.zip (map some fs)).stdout ∷ []) ≡ record { stdout = flatten fs; status = 0 }
unfolding main unzip_files
main-zip fs h = rw (zip-encode-runs fs) (
    ap (λ t. record { stdout = t; status = 0 })
      (append-nil _
        ∙ unzip-encode (runs (flatten fs)) (
            counts_mono (suc (length (flatten fs))) (2 ^ 31) (runs (flatten fs)) h
              (counts-runs (flatten fs)))
        ∙ expand-runs (flatten fs)))
