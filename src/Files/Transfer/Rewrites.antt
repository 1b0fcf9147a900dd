-- ===== src/Files/Transfer/Rewrites.antt =====
-- What `wfswrite` leaves on a consistent disk, and its inode.
use wpi_operating_systems.Base.{
  ℕ, suc, ◌+◌, ◌-◌, ◌*◌, ◌/◌, ◌%◌, ◌^◌, ◌≤◌, ◌<◌, ◌≡◌, ◌≢◌, ◌⊎◌, sym, ◌∙◌, ap, subst, List, [], ◌∷◌,
  ◌++◌, ◌==◌, arith, length, get_or, if◌then◌else◌,
}
use wpi_operating_systems.Files.Disk.{Fs}
use wpi_operating_systems.Files.Disk.Usable.{IsUsable}
use wpi_operating_systems.Files.Inodes.{Inode, read_super, read_inode}
use wpi_operating_systems.Files.Inodes.Slots
use wpi_operating_systems.Files.Inodes.Slots.{IsInode, AllWords, read_inode-IsInode}
use wpi_operating_systems.Files.Bitmaps.{inode_blocks_of}
use wpi_operating_systems.Files.Bitmaps.Bits.{AllBytes, bit_of}
use wpi_operating_systems.Files.Operations.Consistent.{inode_at, AllData, IsConsistent, is_valid}
use wpi_operating_systems.Files.Transfer.Extends.{Extends}
use wpi_operating_systems.Files.Transfer.Bytes.{pointer, file}
use wpi_operating_systems.Files.Transfer.Writable.{IsWritable, IsFull}

-- The inode after a write of `len` bytes: its size grows by all of them.
abbrev pub grown : Inode → List ℕ → ℕ → Inode
grown i direct len = record i { size = (i.size + len) % 2 ^ 32; direct = direct }

-- What a write of the bytes `xs` at `offset` leaves.
pub record WroteFile (inode_blocks n offset : ℕ) (xs : List ℕ) (s t : Fs) : Type 0 where
  pub consistent : IsConsistent inode_blocks t
  pub mounts : t.disk.mounts ≡ s.disk.mounts
  pub blocks : t.disk.blocks ≡ s.disk.blocks
  pub direct : List ℕ
  pub writable : IsWritable t direct
  pub extends : Extends s t (inode_at s.disk.image n).direct direct
  pub inodes :
      (m : ℕ)
      → m < inode_blocks * 128
      → inode_at t.disk.image m ≡ (
          if m == n
          then grown (inode_at s.disk.image n) direct (length xs)
          else inode_at s.disk.image m)
  pub inside :
      (j : ℕ)
      → offset ≤ j
      → j < offset + length xs
      → file t.disk.image direct j ≡ get_or xs (j - offset) 0
  pub outside :
      (j : ℕ)
      → (j < offset) ⊎ (offset + length xs ≤ j)
      → pointer (inode_at s.disk.image n).direct (j / 4096) ≢ 0
      → file t.disk.image direct j ≡ file s.disk.image (inode_at s.disk.image n).direct j
  pub others :
      (k : ℕ)
      → inode_blocks < k
      → ((i : ℕ) → pointer direct i ≢ 0 → pointer direct i ≢ k)
      → t.disk.image k ≡ s.disk.image k

-- What a write leaves that found no data block: `direct` has the blocks that it took, which the
-- inode does not get.
pub record RefusedWrite (inode_blocks n : ℕ) (s t : Fs) : Type 0 where
  pub consistent : IsConsistent inode_blocks t
  pub mounts : t.disk.mounts ≡ s.disk.mounts
  pub blocks : t.disk.blocks ≡ s.disk.blocks
  pub full : IsFull t
  pub direct : List ℕ
  pub writable : IsWritable t direct
  pub extends : Extends s t (inode_at s.disk.image n).direct direct
  pub inodes : (m : ℕ) → m < inode_blocks * 128 → inode_at t.disk.image m ≡ inode_at s.disk.image m
  pub others :
      (k : ℕ)
      → inode_blocks < k
      → ((i : ℕ) → pointer direct i ≢ 0 → pointer direct i ≢ k)
      → t.disk.image k ≡ s.disk.image k

-- A state that differs behind the inode blocks only.
pub IsConsistent-same :
    (inode_blocks : ℕ) (s t : Fs)
    → IsConsistent inode_blocks s
    → IsUsable t.disk
    → t.disk.blocks ≡ s.disk.blocks
    → t.i_bitmap ≡ s.i_bitmap
    → ((k : ℕ) → k ≤ inode_blocks → t.disk.image k ≡ s.disk.image k)
    → IsConsistent inode_blocks t
IsConsistent-same inode_blocks s t c v blocks bitmap image = record {
  usable = v;
  super = ap (λ b. (read_super b).inode_blocks) (image 0 (omega arith)) ∙ c.super;
  room = omega (arith, blocks, c.room);
  covers = ap length bitmap ∙ c.covers;
  bitmap_bytes = subst AllBytes (sym bitmap) c.bitmap_bytes;
  inode_bytes = λ k l. subst Slots.AllBytes (sym (image k l)) (c.inode_bytes k l);
  agrees = λ m l. ap (λ bs. bit_of bs m) bitmap ∙ c.agrees m l ∙ ap is_valid (sym (inode_same m l));
  pointers = λ m l.
      subst (λ i. AllData inode_blocks t.disk.blocks i.direct × (i.indirect ≡ 0))
        (sym (inode_same m l))
        (subst
          (λ b.
            AllData inode_blocks b (inode_at s.disk.image m).direct
            × ((inode_at s.disk.image m).indirect ≡ 0))
          (sym blocks) (c.pointers m l));
}
  where
    inode_same :
        (m : ℕ) → m < inode_blocks * 128 → inode_at t.disk.image m ≡ inode_at s.disk.image m
    inode_same m l = ap (λ b. read_inode b (m % 128)) (image (m / 128 + 1) (omega arith))

pub AllData-IsWritable :
    (s : Fs) (ds es : List ℕ) (k : ℕ)
    → IsWritable s ds
    → ((i : ℕ) → pointer es i ≡ pointer ds (k + i))
    → AllData (inode_blocks_of s.disk.blocks) s.disk.blocks es
AllData-IsWritable s ds [] k w h = tt
AllData-IsWritable s ds (e ∷ es) k w h = (
  subst (λ p. (p ≡ 0) ⊎ ((inode_blocks_of s.disk.blocks < p) × (p < s.disk.blocks))) (sym (h 0))
      (w.data_block (k + 0)),
  AllData-IsWritable s ds es (k + 1) w
      (λ i. let e : k + suc i ≡ k + 1 + i = omega arith in h (suc i) ∙ ap (pointer ds) e),
)

pub AllWords-IsWritable :
    (inode_blocks blocks : ℕ) (ds : List ℕ) (last : ℕ)
    → blocks ≤ 2 ^ 19
    → last < 2 ^ 32
    → AllData inode_blocks blocks ds
    → AllWords (ds ++ (last ∷ []))
AllWords-IsWritable inode_blocks blocks [] last small l h = (l, tt)
AllWords-IsWritable inode_blocks blocks (d ∷ ds) last small l (h, hs) =
    (ground (arith, h), AllWords-IsWritable inode_blocks blocks ds last small l hs)
