-- ===== src/Files/Transfer/Bytes.antt =====
-- The bytes of a file in its direct blocks, and those of one round.
use wpi_operating_systems.Base.{
  ℕ, zero, suc, ◌+◌, ◌-◌, ◌*◌, ◌/◌, ◌%◌, ◌≤◌, ◌<◌, ◌≡◌, ◌⊎◌, inl, inr, refl, sym, ◌∙◌, ap,
  Bool-cases, List, ◌∷◌, ◌++◌, ltb, arith, get_or,
}
use wpi_operating_systems.Files.Disk.{Block}
use wpi_operating_systems.Files.Transfer.{bytes_of, round_bytes}

-- A direct pointer, and the bytes of the file as a function of their places.
abbrev pub pointer : List ℕ → ℕ → ℕ
pointer direct i = get_or direct i 0

abbrev pub file : (ℕ → Block) → List ℕ → Block
file image direct j = image (pointer direct (j / 4096)) (j % 4096)

pub bytes_of-append :
    (m n : ℕ) (b : Block) (o : ℕ) → bytes_of (m + n) b o ≡ bytes_of m b o ++ bytes_of n b (o + m)
unfolding bytes_of
bytes_of-append zero n b o =
    let e : o ≡ o + 0 = omega arith in
    let none_first : 0 + n ≡ n = omega arith in
    ap (λ k. bytes_of k b o) none_first ∙ ap (λ k. bytes_of n b k) e
bytes_of-append (suc m) n b o =
    let e : o + 1 + m ≡ o + suc m = omega arith in
    let more : suc m + n ≡ suc (m + n) = omega arith in
    ap (λ k. bytes_of k b o) more
    ∙ ap (λ bs. b o ∷ bs)
        (bytes_of-append m n b (o + 1) ∙ ap (λ k. bytes_of m b (o + 1) ++ bytes_of n b k) e)

pub bytes_of_same :
    (n : ℕ) (b c : Block) (o p : ℕ)
    → ((i : ℕ) → i < n → b (o + i) ≡ c (p + i))
    → bytes_of n b o ≡ bytes_of n c p
unfolding bytes_of
bytes_of_same zero b c o p h = refl
bytes_of_same (suc n) b c o p h =
    let first : b o ≡ c p = ap b (sym (omega arith)) ∙ h 0 (omega arith) ∙ ap c (omega arith) in
    ap (λ x. x ∷ bytes_of n b (o + 1)) first
    ∙ ap (λ bs. c p ∷ bs)
        (bytes_of_same n b c (o + 1) (p + 1)
          (λ i l. ap b (omega arith) ∙ h (i + 1) (omega arith) ∙ ap c (omega arith)))

-- The bytes of one block.
block_bytes :
    (image : ℕ → Block) (direct : List ℕ) (i o n : ℕ)
    → o + n ≤ 4096
    → bytes_of n (image (pointer direct i)) o ≡ bytes_of n (file image direct) (i * 4096 + o)
block_bytes image direct i o n h =
    bytes_of_same n (image (pointer direct i)) (file image direct) o (i * 4096 + o) (λ k l.
      let row : i ≡ (i * 4096 + o + k) / 4096 = omega arith in
      let column : o + k ≡ (i * 4096 + o + k) % 4096 = omega arith in
      ap (λ q. image (pointer direct q) (o + k)) row
      ∙ ap (λ q. image (pointer direct ((i * 4096 + o + k) / 4096)) q) column)

-- The bytes of a round: at least one, at most those of the block, and all that are left or all to the
-- end of the block.
pub record IsRound (left o k : ℕ) : Type 0 where
  pub some_bytes : 0 < k
  pub in_block : o + k ≤ 4096
  pub in_left : k ≤ left
  pub whole : (k ≡ left) ⊎ (o + k ≡ 4096)

pub round_bytes-IsRound : (left o : ℕ) → 0 < left → o < 4096 → IsRound left o (round_bytes left o)
unfolding round_bytes
round_bytes-IsRound left o some_left small = elim (Bool-cases (ltb 4096 (left + o))) [
  | inl y ↦ rw y (record {
    some_bytes = omega arith;
    in_block = omega arith;
    in_left = ground arith;
    whole = inr (omega arith);
  })
  | inr y ↦ rw y (record {
    some_bytes = omega arith;
    in_block = ground arith;
    in_left = omega arith;
    whole = inl refl;
  })
]

-- The bytes of a round and those of the rounds behind it.
pub joined :
    (image : ℕ → Block) (direct : List ℕ) (i o left k : ℕ)
    → IsRound left o k
    → bytes_of k (image (pointer direct i)) o
        ++ bytes_of (left - k) (file image direct) ((i + 1) * 4096 + 0)
      ≡ bytes_of left (file image direct) (i * 4096 + o)
joined image direct i o left k h =
    let b : Block = file image direct in
    let total : k + (left - k) ≡ left = omega (arith, h.in_left) in
    ap (λ bs. bs ++ bytes_of (left - k) b ((i + 1) * 4096 + 0))
      (block_bytes image direct i o k h.in_block)
    ∙ ap (λ bs. bytes_of k b (i * 4096 + o) ++ bs) (behind h.whole)
    ∙ sym (bytes_of-append k (left - k) b (i * 4096 + o))
    ∙ ap (λ n. bytes_of n b (i * 4096 + o)) total
  where
    behind :
        (k ≡ left) ⊎ (o + k ≡ 4096)
        → bytes_of (left - k) (file image direct) ((i + 1) * 4096 + 0)
          ≡ bytes_of (left - k) (file image direct) (i * 4096 + o + k)
    behind (inl e) = let nothing : left - k ≡ 0 = omega arith in unfold bytes_of in rw nothing refl
    behind (inr e) =
        let place : (i + 1) * 4096 + 0 ≡ i * 4096 + o + k = omega arith in
        ap (λ p. bytes_of (left - k) (file image direct) p) place
