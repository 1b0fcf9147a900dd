-- ===== src/Files/Mounting.antt =====
-- format, create_bitmaps and mount of goatfs.c. `junk` is what the bitmaps hold when malloc returns
-- them, byte by byte.
pub mod Formatted
pub mod Blank
use wpi_operating_systems.Base.{
  ℕ, zero, suc, ◌+◌, ◌-◌, ◌*◌, ◌/◌, ◌%◌, ◌^◌, Bool, true, false, Option, none, some, List, [], ◌∷◌,
  ltb, leb, ◌==◌, if◌then◌else◌, not, ℤ, pos, negsuc, get_elem?, set,
}
use wpi_operating_systems.Files.Disk.{
  Disk, Block, Fs, Cmd, Run, ok, fault, pure, ◌>>=◌, ◌>>◌, wread, wwrite, empty_block,
}
use wpi_operating_systems.Files.Inodes.{SuperBlock, Inode, read_super, write_super, read_inode}
use wpi_operating_systems.Files.Bitmaps.{
  inode_blocks_of, set_bit, byte_at, set_i_byte, populate_d_bitmap,
}

abbrev pub magic_number : ℕ
magic_number = 0xf0f0_3410

abbrev pub err_bad_magic_number : ℤ
err_bad_magic_number = negsuc 0

abbrev pub err_not_enough_blocks : ℤ
err_not_enough_blocks = negsuc 1

abbrev pub err_not_enough_inodes : ℤ
err_not_enough_inodes = negsuc 2

abbrev pub err_create_inode : ℤ
err_create_inode = negsuc 3

abbrev pub success_good_mount : ℤ
success_good_mount = pos 0

-- The blocks from `i` on, `n` of them, are overwritten with zeros.
unfoldable pub clear_blocks : ℕ → ℕ → Cmd (Unit {0})
unfolding wwrite
clear_blocks zero i = pure tt
clear_blocks (suc n) i = do wwrite i empty_block; clear_blocks n (i + 1)

-- the super block of a disk of `n` blocks
unfoldable pub super_of : ℕ → SuperBlock
unfolding inode_blocks_of
super_of n = record {
  magic_number = magic_number;
  blocks = n;
  inode_blocks = inode_blocks_of n;
  inodes = 128 * inode_blocks_of n;
}

-- The super block, and zeros behind it.
unfoldable pub write_format : Cmd Bool
unfolding clear_blocks super_of write_super wwrite
write_format s =
    (do
      wwrite 0 (write_super empty_block (super_of s.disk.blocks))
      clear_blocks (s.disk.blocks - 1) 1
      pure true)
      s

unfoldable pub format : Cmd Bool
unfolding write_format
format s = if not (s.disk.mounts == 0) then ok false s else write_format s

-- `n` bytes of fresh memory from the `i`-th on
unfoldable pub fresh_bytes : (ℕ → ℕ) → ℕ → ℕ → List ℕ
fresh_bytes junk zero i = []
fresh_bytes junk (suc n) i = junk i ∷ fresh_bytes junk n (i + 1)

-- The inodes from `j` on, `n` of them, of the inode block `i`.
unfoldable pub scan_inodes : Block → ℕ → ℕ → ℕ → Cmd (Unit {0})
unfolding read_inode byte_at set_i_byte set_bit populate_d_bitmap
scan_inodes b i zero j = pure tt
scan_inodes b i (suc n) j =
    let inode = read_inode b j in
    let rest = scan_inodes b i n (j + 1) in
    if inode.valid == 0 then rest else do
      (λ s.
          (do
            byte ← byte_at s.i_bitmap (i * 16 + j / 8)
            set_i_byte (i * 16 + j / 8) (set_bit byte (j % 8)))
            s)
      populate_d_bitmap inode
      rest

unfoldable pub scan_blocks : ℕ → ℕ → Cmd (Unit {0})
unfolding wread scan_inodes
scan_blocks zero i = pure tt
scan_blocks (suc n) i = do b ← wread (i + 1); scan_inodes b i 128 0; scan_blocks n (i + 1)

-- `_disk->Mounts++`
unfoldable pub count_mount : Cmd (Unit {0})
count_mount s = ok tt (record s { disk = record s.disk { mounts = s.disk.mounts + 1 } })

-- The checks of the super block against the disk: the first error.
unfoldable pub super_error : SuperBlock → ℕ → Option ℤ
unfolding inode_blocks_of
super_error sb blocks =
    if not (sb.magic_number == magic_number)
    then some err_bad_magic_number
    else if not (sb.blocks == blocks)
    then some err_not_enough_blocks
    else if not (sb.inode_blocks == inode_blocks_of blocks)
    then some err_not_enough_inodes
    else if not (sb.inodes == inode_blocks_of blocks * 128)
    then some err_create_inode
    else none

module _ (junk : ℕ → ℕ) where
  unfoldable pub create_bitmaps : ℕ → ℕ → Cmd (Unit {0})
  unfolding fresh_bytes scan_blocks
  create_bitmaps total_blocks inode_blocks s = scan_blocks inode_blocks 0 (record s {
    i_bitmap = fresh_bytes junk (inode_blocks * 16) 0;
    d_bitmap = fresh_bytes junk ((total_blocks - inode_blocks - 1 + 7) / 8) (inode_blocks * 16);
  })

  -- What follows the checks: the first error, or the bitmaps.
  unfoldable pub mount_super : Option ℤ → SuperBlock → Cmd ℤ
  unfolding create_bitmaps count_mount
  mount_super (some e) sb = pure e
  mount_super none sb = do
    create_bitmaps sb.blocks sb.inode_blocks
    count_mount
    pure success_good_mount

  unfoldable pub read_mount : Cmd ℤ
  unfolding mount_super super_error wread read_super
  read_mount s =
      (do b ← wread 0; mount_super (super_error (read_super b) s.disk.blocks) (read_super b)) s

  unfoldable pub mount : Cmd ℤ
  unfolding read_mount
  mount s = if not (s.disk.mounts == 0) then ok err_bad_magic_number s else read_mount s
