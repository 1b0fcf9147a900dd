-- ===== src/Files/Tests.antt =====
-- A disk of 20 blocks, whose first two inode bitmaps are set by hand.
mod Stored
mod Isolated
use wpi_operating_systems.Base.{ℕ, ◌%◌, ◌≡◌, refl, none, some, [], ◌∷◌, Option, replicate, arith}
use wpi_operating_systems.Files.Disk.{Disk, Fs, ok, ◌>>=◌, empty_block}
use wpi_operating_systems.Files.Disk.Usable.{IsUsable, with_disk, written}
use wpi_operating_systems.Files.Inodes.{SuperBlock, Inode}
use wpi_operating_systems.Files.Bitmaps.{find_free_inode}
use wpi_operating_systems.Files.Bitmaps.Free.{IsFirstFree, find_free_inode-IsFirstFree}
use wpi_operating_systems.Files.Mounting.{success_good_mount, format, mount}
use wpi_operating_systems.Files.Mounting.Formatted.{fresh_bitmaps, mount-format}
use wpi_operating_systems.Files.Display.{debug}
use wpi_operating_systems.Files.Display.Fresh.{super_lines}
use wpi_operating_systems.Files.Transfer.{Cursor, put_bytes, seek, write_round}
use wpi_operating_systems.Files.Transfer.Overwrites.{write_round-seek}

abbrev disk : Disk
disk = record {
  blocks = 20;
  reads = 0;
  writes = 0;
  mounts = 0;
  image = λ n. empty_block;
  io_error = λ n. none;
}

abbrev fs : Fs
fs = record { disk = disk; i_bitmap = 0xff ∷ 0x03 ∷ replicate 30 0; d_bitmap = replicate 3 0 }

disk-IsUsable : IsUsable disk
disk-IsUsable = record { blocks_small = omega arith; no_error = λ n. refl }

-- Inodes 0 to 9 are taken.
find_free_10 : find_free_inode 0 fs ≡ ok (some 10) fs
unfolding find_free_inode
find_free_10 = refl

find_free_inode-IsFirstFree_example :
    (r : Option ℕ) × (find_free_inode 0 fs ≡ ok r fs)
    × IsFirstFree (0xff ∷ 0x03 ∷ replicate 30 0) 0 r
find_free_inode-IsFirstFree_example = find_free_inode-IsFirstFree 0 fs (omega arith)

abbrev inode : Inode
inode = record { valid = 1; size = 20480; direct = 4 ∷ 5 ∷ 6 ∷ 7 ∷ 8 ∷ []; indirect = 0 }

write_round-seek_example :
    (c : Cursor) × (write_round inode (seek 20480) (1 ∷ 2 ∷ []) fs
      ≡ ok
          (some (inode, c))
          (with_disk fs (written disk 0 (put_bytes empty_block (20480 % 4096) (1 ∷ 2 ∷ [])))))
write_round-seek_example =
    write_round-seek inode 20480 (1 ∷ 2 ∷ []) fs disk-IsUsable (omega arith) refl (omega arith)
      (omega arith)
