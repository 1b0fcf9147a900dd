-- ===== src/Files/Bitmaps/Free.antt =====
-- The inode that `find_free_inode` finds.
use wpi_operating_systems.Base.{
  ℕ, zero, suc, ◌+◌, ◌*◌, ◌/◌, ◌%◌, ◌≤◌, ◌<◌, ◌≡◌, refl, subst, ap, ◌∙◌, ◌⊎◌, inl, inr, Bool, true,
  false, Bool-cases, Option, none, some, Option-cases, List, [], ◌∷◌, ◌==◌, get_elem?, get_or,
  length, arith,
}
use wpi_operating_systems.Files.Disk.{Fs, ok, fault}
use wpi_operating_systems.Files.Bitmaps.{
  test_bit, byte_at, find_bit, search_byte, find_in_bytes, find_free_inode,
}

-- The bits from `j` on, `n` of them: all are set, or the least clear one.
FirstClear : (ℕ → Bool) → ℕ → ℕ → Option ℕ → Type 0
FirstClear bit j n none = (k : ℕ) → j ≤ k → k < j + n → bit k ≡ true
FirstClear bit j n (some k) =
    (j ≤ k) × (k < j + n) × (bit k ≡ false) × ((i : ℕ) → j ≤ i → i < k → bit i ≡ true)

find_bit-FirstClear : (n byte j : ℕ) → FirstClear (test_bit byte) j n (find_bit n byte j)
unfolding find_bit FirstClear
find_bit-FirstClear zero byte j = λ k l m. absurd (omega arith)
find_bit-FirstClear (suc n) byte j = elim (Bool-cases (test_bit byte j)) [
  | inl y ↦ rw y (later (find_bit n byte (j + 1)) y (find_bit-FirstClear n byte (j + 1)))
  | inr y ↦ rw y (omega arith, omega arith, y, λ i l m. absurd (omega arith))
]
  where
    at :
        (i : ℕ)
        → test_bit byte j ≡ true
        → j ≤ i
        → (j + 1 ≤ i → test_bit byte i ≡ true)
        → test_bit byte i ≡ true
    at i y l f = elim (cases i l) [ inl e ↦ ap (test_bit byte) e ∙ y | inr q ↦ f q ]
      where
        cases : (i : ℕ) → j ≤ i → (i ≡ j) ⊎ (j + 1 ≤ i)
        cases i l = omega arith

    later :
        (r : Option ℕ)
        → test_bit byte j ≡ true
        → FirstClear (test_bit byte) (j + 1) n r
        → FirstClear (test_bit byte) j (suc n) r
    later none y f = λ k l m. at k y l (λ q. f k q (omega arith))
    later (some k) y (lo, hi, clear, before) =
        (omega arith, omega arith, clear, λ i l m. at i y l (λ q. before i q m))

-- the bit of the inode `k` of an inode block
abbrev pub inode_bit : List ℕ → ℕ → ℕ → Bool
inode_bit bitmap block_index k = test_bit (get_or bitmap (block_index * 16 + k / 8) 0) (k % 8)

pub get_elem?-get_or : (xs : List ℕ) (i : ℕ) → i < length xs → get_elem? xs i ≡ some (get_or xs i 0)
get_elem?-get_or [] i h = absurd (omega arith)
get_elem?-get_or (x ∷ xs) zero h = refl
get_elem?-get_or (x ∷ xs) (suc i) h = get_elem?-get_or xs i (omega arith)

-- A byte of a bitmap inside its bounds.
pub byte_at-ok :
    (bitmap : List ℕ) (i : ℕ) (s : Fs)
    → i < length bitmap
    → byte_at bitmap i s ≡ ok (get_or bitmap i 0) s
unfolding byte_at
byte_at-ok bitmap i s h = rw (byte_at, get_elem?-get_or bitmap i h)

full_byte : (k : ℕ) → k < 8 → test_bit 0xff k ≡ true
unfolding test_bit
full_byte zero h = refl
full_byte (suc zero) h = refl
full_byte (suc (suc zero)) h = refl
full_byte (suc (suc (suc zero))) h = refl
full_byte (suc (suc (suc (suc zero)))) h = refl
full_byte (suc (suc (suc (suc (suc zero))))) h = refl
full_byte (suc (suc (suc (suc (suc (suc zero)))))) h = refl
full_byte (suc (suc (suc (suc (suc (suc (suc zero))))))) h = refl
full_byte (suc (suc (suc (suc (suc (suc (suc (suc k)))))))) h = absurd (omega arith)

module _ (bitmap : List ℕ) (block_index : ℕ) where
  row :
      (i k : ℕ)
      → i * 8 ≤ k
      → k < i * 8 + 8
      → inode_bit bitmap block_index k ≡ test_bit (get_or bitmap (block_index * 16 + i) 0) (k % 8)
  row i k l m =
      let e : k / 8 ≡ i = omega arith in
      ap (λ q. test_bit (get_or bitmap (block_index * 16 + q) 0) (k % 8)) e

  -- A byte with all bits set, and the bytes behind it.
  past_full :
      (i n : ℕ) (r : Option ℕ)
      → ((k : ℕ) → k < 8 → test_bit (get_or bitmap (block_index * 16 + i) 0) k ≡ true)
      → FirstClear (inode_bit bitmap block_index) ((i + 1) * 8) (n * 8) r
      → FirstClear (inode_bit bitmap block_index) (i * 8) (suc n * 8) r
  unfolding FirstClear
  past_full i n r full f = go r f
    where
      here :
          (k : ℕ)
          → i * 8 ≤ k
          → ((i + 1) * 8 ≤ k → inode_bit bitmap block_index k ≡ true)
          → inode_bit bitmap block_index k ≡ true
      here k l f = elim (cases k l) [
        | inl m ↦ row i k l m ∙ full (k % 8) (omega arith)
        | inr q ↦ f q
      ]
        where
          cases : (k : ℕ) → i * 8 ≤ k → (k < i * 8 + 8) ⊎ ((i + 1) * 8 ≤ k)
          cases k l = omega arith

      go :
          (r : Option ℕ)
          → FirstClear (inode_bit bitmap block_index) ((i + 1) * 8) (n * 8) r
          → FirstClear (inode_bit bitmap block_index) (i * 8) (suc n * 8) r
      go none f = λ k l m. here k l (λ q. f k q (omega arith))
      go (some k) (lo, hi, clear, before) =
          (omega arith, omega arith, clear, λ j l m. here j l (λ q. before j q m))

  -- A byte with a clear bit.
  in_byte :
      (i n j : ℕ)
      → FirstClear (test_bit (get_or bitmap (block_index * 16 + i) 0)) 0 8 (some j)
      → FirstClear (inode_bit bitmap block_index) (i * 8) (suc n * 8) (some (i * 8 + j))
  unfolding FirstClear
  in_byte i n j (lo, hi, clear, before) =
      let e : (i * 8 + j) % 8 ≡ j = omega arith in
      (
        omega arith,
        omega arith,
        row i (i * 8 + j) (omega arith) (omega arith)
            ∙ ap (test_bit (get_or bitmap (block_index * 16 + i) 0)) e
            ∙ clear,
        λ k l m. row i k l (omega arith) ∙ before (k % 8) (omega arith) (omega arith),
      )

  find_in_bytes-FirstClear :
      (n i : ℕ) (s : Fs)
      → s.i_bitmap ≡ bitmap
      → block_index * 16 + i + n ≤ length bitmap
      → (r : Option ℕ) × (find_in_bytes block_index n i s ≡ ok r s)
        × FirstClear (inode_bit bitmap block_index) (i * 8) (n * 8) r
  unfolding find_in_bytes
  find_in_bytes-FirstClear zero i s e h =
      (none, refl, unfold FirstClear in λ k l m. absurd (omega arith))
  find_in_bytes-FirstClear (suc n) i s e h =
      let (r, run, f) = find_in_bytes-FirstClear n (i + 1) s e (omega arith) in
      let byte : ℕ = get_or bitmap (block_index * 16 + i) 0 in
      let at : get_elem? s.i_bitmap (block_index * 16 + i) ≡ some byte =
        ap (λ b. get_elem? b (block_index * 16 + i)) e
        ∙ get_elem?-get_or bitmap (block_index * 16 + i) (omega arith) in
      let start : find_in_bytes block_index (suc n) i s
          ≡ search_byte (find_in_bytes block_index n (i + 1) s) i byte s =
        ap
          (λ g. elim g [
            | none ↦ fault
            | some b ↦ search_byte (find_in_bytes block_index n (i + 1) s) i b s
          ])
          at in
      elim (Bool-cases (byte == 0xff)) [
        | inl y ↦ (
          r,
          start ∙ unfold search_byte in rw y run,
          past_full i n r (λ k l. ap (λ b. test_bit b k) (is_full y) ∙ full_byte k l) f,
        )
        | inr y ↦ elim (Option-cases (find_bit 8 byte 0)) [
          | inl z ↦ (
            r,
            start ∙ unfold search_byte in rw (y, z) run,
            past_full i n r
                (λ k l.
                  unfold FirstClear in
                  (subst (FirstClear (test_bit byte) 0 8) z (find_bit-FirstClear 8 byte 0)) k
                    (omega arith) l)
                f,
          )
          | inr (j, z) ↦ (
            some (i * 8 + j),
            start ∙ unfold search_byte in rw (y, z) refl,
            in_byte i n j (subst (FirstClear (test_bit byte) 0 8) z (find_bit-FirstClear 8 byte 0)),
          )
        ]
      ]
    where
      is_full : {byte : ℕ} → (byte == 0xff) ≡ true → byte ≡ 0xff
      is_full y = ground arith

-- What `find_free_inode` should return for an inode block: the least of its 128 inodes whose bit is
-- clear, `none` if all are set.
abbrev pub IsFirstFree : List ℕ → ℕ → Option ℕ → Type 0
IsFirstFree bitmap block_index none = (k : ℕ) → k < 128 → inode_bit bitmap block_index k ≡ true
IsFirstFree bitmap block_index (some k) =
    (k < 128)
    × (inode_bit bitmap block_index k ≡ false)
    × ((i : ℕ) → i < k → inode_bit bitmap block_index i ≡ true)

-- For an inode block whose 16 bytes lie in the bitmap, `find_free_inode` returns the least inode
-- whose bit is clear, or -1 if all 128 bits are set, and changes nothing.
pub find_free_inode-IsFirstFree :
    (block_index : ℕ) (s : Fs)
    → block_index * 16 + 16 ≤ length s.i_bitmap
    → (r : Option ℕ) × (find_free_inode block_index s ≡ ok r s)
      × IsFirstFree s.i_bitmap block_index r
unfolding find_free_inode FirstClear
find_free_inode-IsFirstFree block_index s h =
    let (r, run, f) = find_in_bytes-FirstClear s.i_bitmap block_index 16 0 s refl (omega arith) in
    (r, run, shape r f)
  where
    shape :
        (r : Option ℕ)
        → FirstClear (inode_bit s.i_bitmap block_index) (0 * 8) (16 * 8) r
        → IsFirstFree s.i_bitmap block_index r
    shape none f = λ k l. f k (omega arith) (omega arith)
    shape (some k) (lo, hi, clear, before) = (omega arith, clear, λ i l. before i (omega arith) l)
