-- ===== src/Files/Transfer/Disjoint.antt =====
-- Files without common blocks, before and after a write to one of them.
use wpi_operating_systems.Base.{
  ℕ, zero, suc, ◌*◌, ◌/◌, ◌%◌, ◌<◌, ◌≡◌, ◌≢◌, ◌⊎◌, inl, inr, refl, sym, ◌∙◌, ap, subst, Bool, true,
  false, List, ◌==◌, arith,
}
use wpi_operating_systems.Files.Disk.{Fs}
use wpi_operating_systems.Files.Bitmaps.{inode_blocks_of}
use wpi_operating_systems.Files.Bitmaps.Bits.{bit_of}
use wpi_operating_systems.Files.Bitmaps.FreeBlocks.{data_index}
use wpi_operating_systems.Files.Operations.Consistent.{inode_at, IsConsistent}
use wpi_operating_systems.Files.Transfer.Bytes.{pointer, file}
use wpi_operating_systems.Files.Transfer.Extends.{Extends}
use wpi_operating_systems.Files.Transfer.Writable.{IsWritable}

-- the direct pointers of the inode `n`
abbrev pub direct_of : Fs → ℕ → List ℕ
direct_of s n = (inode_at s.disk.image n).direct

-- A mounted disk that is consistent, with as many inode blocks as its size gives, in which the bitmap
-- has the blocks of all inodes and no two inodes have a block in common.
pub record IsFileSystem (inode_blocks : ℕ) (s : Fs) : Type 0 where
  pub consistent : IsConsistent inode_blocks s
  pub sized : inode_blocks ≡ inode_blocks_of s.disk.blocks
  pub mounted : s.disk.mounts ≢ 0
  pub writable : (n : ℕ) → n < inode_blocks * 128 → IsWritable s (direct_of s n)
  pub disjoint :
      (n m i j : ℕ)
      → n < inode_blocks * 128
      → m < inode_blocks * 128
      → pointer (direct_of s n) i ≢ 0
      → pointer (direct_of s n) i ≡ pointer (direct_of s m) j
      → n ≡ m

-- Pointers that a write did not change.
pub IsWritable-Extends :
    (s t : Fs) (ds es fs : List ℕ)
    → t.disk.blocks ≡ s.disk.blocks
    → Extends s t ds es
    → IsWritable t es
    → IsWritable s fs
    → IsWritable t fs
IsWritable-Extends s t ds es fs blocks e v w = record {
  usable = v.usable;
  covers = v.covers;
  bytes = v.bytes;
  five = w.five;
  data_block = λ i.
      subst (λ b. (pointer fs i ≡ 0) ⊎ ((inode_blocks_of b < pointer fs i) × (pointer fs i < b)))
        (sym blocks) (w.data_block i);
  taken = λ i h.
      ap (λ b. bit_of t.d_bitmap (data_index b (pointer fs i))) blocks
      ∙ e.bits (data_index s.disk.blocks (pointer fs i)) (w.taken i h);
  distinct = w.distinct;
}

-- What other inodes and files have after the write to the inode `n`.
module _ (inode_blocks n : ℕ) (s t : Fs) (es : List ℕ) (f : IsFileSystem inode_blocks s)
    (in_inodes : n < inode_blocks * 128) (e : Extends s t (direct_of s n) es)
    (blocks : t.disk.blocks ≡ s.disk.blocks) (v : IsWritable t es) where
  -- A block of the file is not one of another file.
  apart :
      (m i j : ℕ)
      → m < inode_blocks * 128
      → m ≢ n
      → pointer es i ≢ 0
      → pointer es i ≢ pointer (direct_of s m) j
  apart m i j l ne h same = by_old (pointer (direct_of s n) i) refl
    where
      differ : true ≢ false
      differ d = cc

      by_old : (p : ℕ) → pointer (direct_of s n) i ≡ p → ⊥
      by_old zero z = differ (
          sym ((f.writable m l).taken j (λ d. h (same ∙ d)))
          ∙ ap (λ p. bit_of s.d_bitmap (data_index s.disk.blocks p)) (sym same)
          ∙ e.fresh i z h)
      by_old (suc p) z =
          let some_block : pointer (direct_of s n) i ≢ 0 = λ d. cc in
          ne (sym (f.disjoint n m i j in_inodes l some_block (sym (e.kept i some_block) ∙ same)))

  module _ (c : IsConsistent inode_blocks t) (mounts : t.disk.mounts ≡ s.disk.mounts)
      (own : IsWritable t (direct_of t n))
      (in_file : (i : ℕ) → pointer (direct_of t n) i ≢ 0 → pointer es i ≡ pointer (direct_of t n) i)
      (same : (m : ℕ) → m < inode_blocks * 128 → m ≢ n → direct_of t m ≡ direct_of s m) where
    -- A pointer of the file itself is not one of another file.
    other :
        (m i j : ℕ)
        → m < inode_blocks * 128
        → m ≢ n
        → pointer (direct_of t n) i ≢ 0
        → pointer (direct_of t n) i ≢ pointer (direct_of t m) j
    other m i j l ne h d =
        apart m i j l ne (λ z. h (sym (in_file i h) ∙ z))
          (in_file i h ∙ d ∙ ap (λ ds. pointer ds j) (same m l ne))

    extended_disjoint :
        (a b i j : ℕ)
        → a < inode_blocks * 128
        → b < inode_blocks * 128
        → pointer (direct_of t a) i ≢ 0
        → pointer (direct_of t a) i ≡ pointer (direct_of t b) j
        → a ≡ b
    extended_disjoint a b i j la lb h d = by_tests (a == n) (b == n) refl refl
      where
        differs : (m : ℕ) → (m == n) ≡ false → m ≢ n
        differs m y = ground arith

        by_tests : (p q : Bool) → (a == n) ≡ p → (b == n) ≡ q → a ≡ b
        by_tests true true y z = ground arith
        by_tests true false y z =
            let here : a ≡ n = ground arith in
            absurd (
              other b i j lb (differs b z) (subst (λ k. pointer (direct_of t k) i ≢ 0) here h)
                (subst (λ k. pointer (direct_of t k) i ≡ pointer (direct_of t b) j) here d))
        by_tests false true y z =
            let here : b ≡ n = ground arith in
            let there : pointer (direct_of t n) j ≡ pointer (direct_of t a) i =
              ap (λ k. pointer (direct_of t k) j) (sym here) ∙ sym d in
            absurd (other a j i la (differs a y) (λ k. h (sym there ∙ k)) there)
        by_tests false false y z =
            let here = ap (λ ds. pointer ds i) (same a la (differs a y)) in
            let there = ap (λ ds. pointer ds j) (same b lb (differs b z)) in
            f.disjoint a b i j la lb (λ k. h (here ∙ k)) (sym here ∙ d ∙ there)

    pub extended-IsFileSystem : IsFileSystem inode_blocks t
    extended-IsFileSystem = record {
      consistent = c;
      sized = f.sized ∙ ap inode_blocks_of (sym blocks);
      mounted = λ z. f.mounted (sym mounts ∙ z);
      writable = λ m l. by_test m l (m == n) refl;
      disjoint = extended_disjoint;
    }
      where
        by_test :
            (m : ℕ)
            → m < inode_blocks * 128
            → (b : Bool) → (m == n) ≡ b
            → IsWritable t (direct_of t m)
        by_test m l true y =
            let here : m ≡ n = ground arith in
            subst (λ k. IsWritable t (direct_of t k)) (sym here) own
        by_test m l false y =
            let there : m ≢ n = ground arith in
            subst (IsWritable t) (sym (same m l there)) (
              IsWritable-Extends s t (direct_of s n) es (direct_of s m) blocks e v (f.writable m l))

    pub other_files :
        ((k : ℕ)
          → inode_blocks < k
          → ((i : ℕ) → pointer es i ≢ 0 → pointer es i ≢ k)
          → t.disk.image k ≡ s.disk.image k)
        → (m j : ℕ) → m < inode_blocks * 128
        → m ≢ n
        → pointer (direct_of s m) (j / 4096) ≢ 0
        → file t.disk.image (direct_of t m) j ≡ file s.disk.image (direct_of s m) j
    other_files others m j l ne h =
        ap (λ ds. file t.disk.image ds j) (same m l ne)
        ∙ ap (λ b. b (j % 4096))
            (others (pointer (direct_of s m) (j / 4096))
              (behind ((f.writable m l).data_block (j / 4096)))
              (λ i z. apart m i (j / 4096) l ne z))
      where
        behind :
            (pointer (direct_of s m) (j / 4096) ≡ 0)
              ⊎ ((inode_blocks_of s.disk.blocks < pointer (direct_of s m) (j / 4096))
                  × (pointer (direct_of s m) (j / 4096) < s.disk.blocks))
            → inode_blocks < pointer (direct_of s m) (j / 4096)
        behind (inl z) = absurd (h z)
        behind (inr (low, high)) = omega (arith, low, f.sized)
