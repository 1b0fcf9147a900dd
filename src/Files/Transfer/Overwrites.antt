-- ===== src/Files/Transfer/Overwrites.antt =====
-- What a write does behind the direct blocks of a file that has no indirect block.
use wpi_operating_systems.Base.{
  ℕ, ◌+◌, ◌*◌, ◌/◌, ◌-◌, ◌%◌, ◌≤◌, ◌<◌, ◌≡◌, refl, ap, ◌∙◌, true, Bool-cases, inl, inr, some, List,
  ltb, ◌==◌, if◌then◌else◌, arith,
}
use wpi_operating_systems.Files.Disk.{Fs, ok, and_then-ok, empty_block}
use wpi_operating_systems.Files.Disk.Usable.{IsUsable, with_disk, written, wwrite-ok}
use wpi_operating_systems.Files.Inodes.{Inode, word}
use wpi_operating_systems.Files.Transfer.{
  Cursor, put_bytes, pointer_at, load_indirect, write_indirect, write_direct, write_round, seek,
  seek_direct, seek_indirect,
}

zero_pointer : (i : ℕ) (s : Fs) → i < 1024 → pointer_at empty_block i s ≡ ok 0 s
unfolding pointer_at word
zero_pointer i s h = ground arith

no_indirect_block :
    (inode : Inode) (c : Cursor) (s : Fs)
    → inode.indirect ≡ 0
    → load_indirect inode c s ≡ ok c.indirect_buffer s
unfolding load_indirect
no_indirect_block inode c s e = elim (Bool-cases (c.indirect_buffer 0 == 0)) [
  | inl y ↦ rw (y, e) refl
  | inr y ↦ rw y refl
]

-- From byte 5 * 4096 on, a write to a file without an indirect block overwrites block 0 of the disk,
-- which holds the super block: the first round takes the pointer from a buffer of zeros. The offset
-- is in the range of the indirect pointers, and the transfers succeed.
pub write_round-seek :
    (inode : Inode) (offset : ℕ) (xs : List ℕ) (s : Fs)
    → IsUsable s.disk
    → 0 < s.disk.blocks
    → inode.indirect ≡ 0
    → 5 * 4096 ≤ offset
    → offset < 1029 * 4096
    → (c : Cursor) × (write_round inode (seek offset) xs s
        ≡ ok
            (some (inode, c))
            (with_disk s (written s.disk 0 (put_bytes empty_block (offset % 4096) xs))))
unfolding write_round seek
write_round-seek inode offset xs s v some_blocks no_indirect low high =
    let direct : (seek offset).direct_iter ≡ 5 = unfold seek seek_direct in ground arith in
    let far : ltb 4 (seek offset).direct_iter ≡ true = ap (ltb 4) direct in
    let start : write_round inode (seek offset) xs s ≡ write_indirect inode (seek offset) xs s =
      ap
        (λ b.
          (if b then write_indirect inode (seek offset) xs else write_direct inode (seek offset) xs)
            s)
        far in
    let pointer : pointer_at (seek offset).indirect_buffer (seek offset).indirect_iter s ≡ ok 0 s =
      unfold seek seek_indirect in zero_pointer (offset / 4096 - 5) s (omega arith) in
    (
      record (seek offset) {
        indirect_iter = (seek offset).indirect_iter + 1;
        indirect_buffer = (seek offset).indirect_buffer;
        data_buffer = put_bytes (seek offset).data_buffer (seek offset).cur_offset xs;
      },
      start
          ∙ unfold write_indirect in
            (and_then-ok _ (no_indirect_block inode (seek offset) s no_indirect)
              ∙ and_then-ok _ pointer
              ∙ and_then-ok _ (
                  wwrite-ok 0 (put_bytes (seek offset).data_buffer (seek offset).cur_offset xs) s v
                    some_blocks)),
    )
