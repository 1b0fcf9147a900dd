-- ===== src/Files/Transfer/Stores.antt =====
-- `wfswrite` stores its bytes, or finds no data block.
use wpi_operating_systems.Base.{
  ℕ, ◌+◌, ◌*◌, ◌/◌, ◌≤◌, ◌<◌, ◌≡◌, ◌≢◌, ◌⊎◌, sym, ◌∙◌, ap, subst, true, none, some, List, arith,
  length, if◌then◌else◌,
}
use wpi_operating_systems.Files.Disk.{Fs, ok, and_then-ok}
use wpi_operating_systems.Files.Disk.Usable.{after_read}
use wpi_operating_systems.Files.Inodes.{Inode}
use wpi_operating_systems.Files.Bitmaps.{inode_blocks_of}
use wpi_operating_systems.Files.Operations.Consistent.{inode_at, IsConsistent, is_valid}
use wpi_operating_systems.Files.Operations.Lookup.{lookup-ok}
use wpi_operating_systems.Files.Transfer.{seek, write_loop, wfswrite}
use wpi_operating_systems.Files.Transfer.Reads.{seek-offset}
use wpi_operating_systems.Files.Transfer.Writable.{IsWritable}
use wpi_operating_systems.Files.Transfer.WriteLoop.{LoopEnds, write_loop-LoopEnds}
use wpi_operating_systems.Files.Transfer.Rewrites.{WroteFile, RefusedWrite}
use wpi_operating_systems.Files.Transfer.Finish.{with_found, Stores, finish-ok}

IsWritable-after_read : (s : Fs) (ds : List ℕ) → IsWritable s ds → IsWritable (after_read s) ds
IsWritable-after_read s ds w = record {
  usable = record { blocks_small = w.usable.blocks_small; no_error = w.usable.no_error };
  covers = w.covers;
  bytes = w.bytes;
  five = w.five;
  data_block = w.data_block;
  taken = w.taken;
  distinct = w.distinct;
}

-- On a mounted disk that is consistent, with as many inode blocks as its size gives and a bitmap that
-- has the blocks of the file, a write of bytes that lie in the direct blocks of a valid inode ends in
-- one of two ways. Either all bytes are written: the file has them at the offset and its other bytes
-- as before, its size is larger by their number (in 32 bits), the other inodes and the blocks that are
-- not in the file are as before, and the disk is consistent. Or -1 is returned: no data block is free,
-- no inode has changed, and the disk is consistent.
pub wfswrite-WroteFile :
    (inode_blocks n offset : ℕ) (xs : List ℕ) (s : Fs)
    → IsConsistent inode_blocks s
    → inode_blocks ≡ inode_blocks_of s.disk.blocks
    → s.disk.mounts ≢ 0
    → n < inode_blocks * 128
    → is_valid (inode_at s.disk.image n) ≡ true
    → IsWritable s (inode_at s.disk.image n).direct
    → offset + length xs ≤ 20480
    → (t : Fs) × (((wfswrite n xs offset s ≡ ok (some (length xs)) t)
          × WroteFile inode_blocks n offset xs s t)
        ⊎ ((wfswrite n xs offset s ≡ ok none t) × RefusedWrite inode_blocks n s t))
unfolding wfswrite
wfswrite-WroteFile inode_blocks n offset xs s c sized mounted in_inodes valid w direct =
    let inode : Inode = inode_at s.disk.image n in
    let at = seek-offset offset (omega arith) in
    let ends : LoopEnds (after_read s) inode offset xs
        (write_loop (length xs) inode (seek offset) xs (after_read s)) =
      subst
        (λ o.
          LoopEnds (after_read s) inode o xs
            (write_loop (length xs) inode (seek offset) xs (after_read s)))
        at
        (write_loop-LoopEnds (length xs) inode (seek offset) xs (after_read s) (omega arith)
          (unfold seek in omega arith) (omega (arith, at))
          (IsWritable-after_read s inode.direct w)) in
    subst (Stores inode_blocks n offset xs s c sized in_inodes valid ends)
      (sym (
        and_then-ok _ (lookup-ok inode_blocks n s c mounted in_inodes)
        ∙ ap
            (λ b.
              with_found n xs offset (if b then some (s.disk.image (n / 128 + 1), inode) else none)
                (after_read s))
            valid))
      (finish-ok inode_blocks n offset xs s c sized in_inodes valid ends)
