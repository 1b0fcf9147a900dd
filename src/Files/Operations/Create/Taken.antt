-- ===== src/Files/Operations/Create/Taken.antt =====
-- An inode is taken.
use wpi_operating_systems.Base.{
  ℕ, ◌+◌, ◌*◌, ◌/◌, ◌%◌, ◌<◌, ◌≡◌, refl, ◌∙◌, List, [], ◌∷◌, ◌++◌, arith, length, get_or, set,
  length-set,
}
use wpi_operating_systems.Files.Disk.{Block, Fs, ok, and_then-ok}
use wpi_operating_systems.Files.Disk.Usable.{
  after_read, IsUsable, with_disk, counted, written, wread-ok, wwrite-ok,
}
use wpi_operating_systems.Files.Inodes.{Inode, read_inode, write_inode}
use wpi_operating_systems.Files.Inodes.Slots.{IsInode, AllWords}
use wpi_operating_systems.Files.Bitmaps.{set_bit, set_i_byte}
use wpi_operating_systems.Files.Bitmaps.Bits.{bit_of-with_bit, with_bit-AllBytes}
use wpi_operating_systems.Files.Bitmaps.Free.{byte_at-ok}
use wpi_operating_systems.Files.Operations.{write_Inode, take_inode}
use wpi_operating_systems.Files.Operations.Consistent.{inode_at, IsConsistent, IsRewritten}

-- The inode that `write_Inode` leaves.
abbrev pub emptied : Inode → Inode
emptied i = record i { valid = 1; indirect = 0; size = 0 }

abbrev pub new_block : Block → ℕ → Block
new_block b k = write_inode b k (emptied (read_inode b k))

pub write_Inode-ok :
    (i k : ℕ) (s : Fs)
    → IsUsable s.disk
    → i < s.disk.blocks
    → write_Inode i k s
      ≡ ok tt (with_disk s (written (counted s.disk) i (new_block (s.disk.image i) k)))
unfolding write_Inode
write_Inode-ok i k s v h =
    and_then-ok _ (wread-ok i s v h)
    ∙ wwrite-ok i (new_block (s.disk.image i) k) (with_disk s (counted s.disk))
        (record { blocks_small = v.blocks_small; no_error = v.no_error }) h

pub take_inode-ok :
    (i k : ℕ) (s : Fs)
    → i * 16 + k / 8 < length s.i_bitmap
    → take_inode i k s
      ≡ ok tt (record s {
        i_bitmap =
            set s.i_bitmap
              (i * 16 + k / 8)
              (set_bit (get_or s.i_bitmap (i * 16 + k / 8) 0) (k % 8));
      })
unfolding take_inode set_i_byte
take_inode-ok i k s h = and_then-ok _ (byte_at-ok s.i_bitmap (i * 16 + k / 8) s h)

-- The inode `k` of the block `i` written, and the bit `c` of the byte `r` of the bitmap set.
abbrev pub changed : Fs → ℕ → ℕ → ℕ → ℕ → Fs
changed s i k r c = record s {
  disk = written (counted s.disk) i (new_block (s.disk.image i) k);
  i_bitmap = set s.i_bitmap r (set_bit (get_or s.i_bitmap r 0) c);
}

-- The state after the inode `n` was taken.
abbrev pub taken : Fs → ℕ → Fs
taken s n = changed s (n / 128 + 1) (n % 128) (n / 8) (n % 8)

pub emptied-IsInode : (i : Inode) → IsInode i → IsInode (emptied i)
emptied-IsInode i h = record {
  pointers = h.pointers;
  fits = (
    omega arith,
    (
      omega arith,
      last_zero i.direct (AllWords-front (i.valid ∷ i.size ∷ []) i.direct i.indirect h.fits),
    ),
  );
}
  where
    last_zero : (ds : List ℕ) → AllWords ds → AllWords (ds ++ (0 ∷ []))
    last_zero [] h = (omega arith, tt)
    last_zero (d ∷ ds) (h, hs) = (h, last_zero ds hs)

    AllWords-front : (us ds : List ℕ) (i : ℕ) → AllWords (us ++ (ds ++ (i ∷ []))) → AllWords ds
    AllWords-front [] [] i h = tt
    AllWords-front [] (d ∷ ds) i (h, hs) = (h, AllWords-front [] ds i hs)
    AllWords-front (u ∷ us) ds i (h, hs) = AllWords-front us ds i hs

pub taken-IsRewritten :
    (inode_blocks : ℕ) (s : Fs) (n : ℕ)
    → IsConsistent inode_blocks s
    → n < inode_blocks * 128
    → IsRewritten inode_blocks s (taken (after_read s) n) n (emptied (inode_at s.disk.image n))
taken-IsRewritten inode_blocks s n c inside = record {
  usable = record { blocks_small = c.usable.blocks_small; no_error = c.usable.no_error };
  blocks = refl;
  image = λ k l. refl;
  covers = length-set s.i_bitmap (n / 8) (set_bit (get_or s.i_bitmap (n / 8) 0) (n % 8));
  bytes = with_bit-AllBytes s.i_bitmap n c.bitmap_bytes;
  bits = λ m. bit_of-with_bit s.i_bitmap n m c.bitmap_bytes (omega (arith, c.covers));
}
