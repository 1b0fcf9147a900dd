-- ===== src/Files/Operations/Consistent.antt =====
-- The state between the operations of goatfs.c: inodes and bitmap belong together.
use wpi_operating_systems.Base.{
  ℕ, ◌+◌, ◌*◌, ◌/◌, ◌%◌, ◌≤◌, ◌<◌, ◌≡◌, ◌⊎◌, refl, sym, subst, ◌∙◌, ap, Bool, true, false, List, [],
  ◌∷◌, ◌==◌, not, if◌then◌else◌, Bool-cases, inl, inr, arith, length, get_or,
}
use wpi_operating_systems.Files.Disk.{Block, Fs, put_block}
use wpi_operating_systems.Files.Disk.Usable.{IsUsable}
use wpi_operating_systems.Files.Inodes.{Inode, read_super, read_inode, write_inode}
use wpi_operating_systems.Files.Inodes.Slots
use wpi_operating_systems.Files.Inodes.Slots.{
  IsInode, read_inode-IsInode, read_inode-write_inode, read_inode-write_inode_other,
  write_inode-AllBytes,
}
use wpi_operating_systems.Files.Bitmaps.{test_bit}
use wpi_operating_systems.Files.Bitmaps.Bits.{AllBytes, bit_of}
use wpi_operating_systems.Files.Bitmaps.Free.{inode_bit}

-- the inode `n` of a disk
abbrev pub inode_at : (ℕ → Block) → ℕ → Inode
inode_at image n = read_inode (image (n / 128 + 1)) (n % 128)

-- Pointers are 0 or name a data block, behind the inode blocks.
abbrev pub AllData : ℕ → ℕ → List ℕ → Type 0
AllData inode_blocks blocks [] = Unit {0}
AllData inode_blocks blocks (p ∷ ps) =
    ((p ≡ 0) ⊎ ((inode_blocks < p) × (p < blocks))) × AllData inode_blocks blocks ps

-- A disk that can be used, with its number of inode blocks in the super block; a bitmap of 16 bytes
-- for each inode block, in which the bit of an inode is set exactly if the inode is valid; and inodes
-- that point to data blocks, without an indirect block.
pub record IsConsistent (inode_blocks : ℕ) (s : Fs) : Type 0 where
  pub usable : IsUsable s.disk
  pub super : (read_super (s.disk.image 0)).inode_blocks ≡ inode_blocks
  pub room : inode_blocks < s.disk.blocks
  pub covers : length s.i_bitmap ≡ inode_blocks * 16
  pub bitmap_bytes : AllBytes s.i_bitmap
  pub inode_bytes : (n : ℕ) → n ≤ inode_blocks → Slots.AllBytes (s.disk.image n)
  pub agrees :
      (n : ℕ)
      → n < inode_blocks * 128
      → bit_of s.i_bitmap n ≡ not ((inode_at s.disk.image n).valid == 0)
  pub pointers :
      (n : ℕ)
      → n < inode_blocks * 128
      → AllData inode_blocks s.disk.blocks (inode_at s.disk.image n).direct
        × ((inode_at s.disk.image n).indirect ≡ 0)

-- The bit of an inode, by its block and its place in the block.
pub inode_bit-bit_of :
    (bitmap : List ℕ) (i k : ℕ) → k < 128 → inode_bit bitmap i k ≡ bit_of bitmap (i * 128 + k)
inode_bit-bit_of bitmap i k h =
    let row : i * 16 + k / 8 ≡ (i * 128 + k) / 8 = omega arith in
    let column : k % 8 ≡ (i * 128 + k) % 8 = omega arith in
    ap (λ q. test_bit (get_or bitmap q 0) (k % 8)) row
    ∙ ap (λ c. test_bit (get_or bitmap ((i * 128 + k) / 8) 0) c) column

-- One inode written.
abbrev pub with_inode : (ℕ → Block) → ℕ → Inode → ℕ → Block
with_inode image n i = put_block image (n / 128 + 1) (write_inode (image (n / 128 + 1)) (n % 128) i)

module _ (image : ℕ → Block) (n : ℕ) (i : Inode) (h : IsInode i) where
  pub inode_at-with_inode :
      (m : ℕ) → inode_at (with_inode image n i) m ≡ (if m == n then i else inode_at image m)
  unfolding put_block
  inode_at-with_inode m = elim (Bool-cases (m == n)) [
    | inl y ↦
        let block : (m / 128 + 1 == n / 128 + 1) ≡ true = ground arith in
        let place : m % 128 ≡ n % 128 = ground arith in
        rw (y, block, place) (read_inode-write_inode (image (n / 128 + 1)) (n % 128) i h)
    | inr y ↦ elim (Bool-cases (m / 128 + 1 == n / 128 + 1)) [
      | inl z ↦
          let same : n / 128 + 1 ≡ m / 128 + 1 = ground arith in
          rw (y, z)
            (read_inode-write_inode_other (image (n / 128 + 1)) (n % 128) (m % 128) i h.pointers
                (ground arith)
              ∙ ap (λ q. read_inode (image q) (m % 128)) same)
      | inr z ↦ rw (y, z) refl
    ]
  ]

-- What the bit of an inode should be.
abbrev pub is_valid : Inode → Bool
is_valid i = not (i.valid == 0)

-- A state with one inode written and its bit changed; blocks behind the inode blocks may have changed
-- too.
pub record IsRewritten (inode_blocks : ℕ) (s t : Fs) (n : ℕ) (i : Inode) : Type 0 where
  pub usable : IsUsable t.disk
  pub blocks : t.disk.blocks ≡ s.disk.blocks
  pub image : (k : ℕ) → k ≤ inode_blocks → t.disk.image k ≡ with_inode s.disk.image n i k
  pub covers : length t.i_bitmap ≡ length s.i_bitmap
  pub bytes : AllBytes t.i_bitmap
  pub bits : (m : ℕ) → bit_of t.i_bitmap m ≡ (if m == n then is_valid i else bit_of s.i_bitmap m)

module _ (inode_blocks : ℕ) (s t : Fs) (n : ℕ) (i : Inode) (h : IsInode i)
    (w : IsRewritten inode_blocks s t n i) where
  -- The inodes afterwards.
  pub inode_at-IsRewritten :
      (m : ℕ)
      → m < inode_blocks * 128
      → inode_at t.disk.image m ≡ (if m == n then i else inode_at s.disk.image m)
  inode_at-IsRewritten m l =
      ap (λ b. read_inode b (m % 128)) (w.image (m / 128 + 1) (omega arith))
      ∙ inode_at-with_inode s.disk.image n i h m

  pub IsRewritten-IsConsistent :
      IsConsistent inode_blocks s
      → n < inode_blocks * 128
      → AllData inode_blocks s.disk.blocks i.direct
      → i.indirect ≡ 0
      → IsConsistent inode_blocks t
  IsRewritten-IsConsistent c inside data_blocks no_indirect = record {
    usable = w.usable;
    super = ap (λ b. (read_super b).inode_blocks) (w.image 0 (omega arith) ∙ first) ∙ c.super;
    room = omega (arith, w.blocks, c.room);
    covers = w.covers ∙ c.covers;
    bitmap_bytes = w.bytes;
    inode_bytes =
        λ k l. subst Slots.AllBytes (sym (w.image k l)) (bytes_of k l (k == n / 128 + 1) refl);
    agrees = λ m l.
        w.bits m
        ∙ chosen (m == n) (is_valid i) (bit_of s.i_bitmap m) (is_valid (inode_at s.disk.image m))
            (c.agrees m l)
        ∙ sym (ap is_valid (inode_at-IsRewritten m l) ∙ ap_if (m == n) i (inode_at s.disk.image m));
    pointers = λ m l.
        subst (λ j. AllData inode_blocks t.disk.blocks j.direct × (j.indirect ≡ 0))
          (sym (inode_at-IsRewritten m l))
          (subst
            (λ b.
              AllData inode_blocks b (if m == n then i else inode_at s.disk.image m).direct
              × ((if m == n then i else inode_at s.disk.image m).indirect ≡ 0))
            (sym w.blocks) (either (m == n) m l));
  }
    where
      first : with_inode s.disk.image n i 0 ≡ s.disk.image 0
      first = unfold put_block in ground arith

      bytes_of :
          (k : ℕ)
          → k ≤ inode_blocks
          → (b : Bool) → (k == n / 128 + 1) ≡ b
          → Slots.AllBytes (with_inode s.disk.image n i k)
      bytes_of k l true e =
          unfold put_block in
          rw e (
            write_inode-AllBytes (s.disk.image (n / 128 + 1)) (n % 128) i
              (c.inode_bytes (n / 128 + 1) (omega arith)))
      bytes_of k l false e = unfold put_block in rw e (c.inode_bytes k l)

      chosen : (b x y z : Bool) → y ≡ z → (if b then x else y) ≡ (if b then x else z)
      chosen true x y z e = refl
      chosen false x y z e = e

      ap_if :
          (b : Bool) (j k : Inode)
          → is_valid (if b then j else k) ≡ (if b then is_valid j else is_valid k)
      ap_if true j k = refl
      ap_if false j k = refl

      either :
          (b : Bool) (m : ℕ)
          → m < inode_blocks * 128
          → AllData inode_blocks s.disk.blocks (if b then i else inode_at s.disk.image m).direct
            × ((if b then i else inode_at s.disk.image m).indirect ≡ 0)
      either true m l = (data_blocks, no_indirect)
      either false m l = c.pointers m l
