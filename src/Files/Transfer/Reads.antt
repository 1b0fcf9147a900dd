-- ===== src/Files/Transfer/Reads.antt =====
-- What `wfsread` returns.
use wpi_operating_systems.Base.{
  ℕ, zero, suc, ◌+◌, ◌-◌, ◌*◌, ◌/◌, ◌%◌, ◌^◌, ◌≤◌, ◌<◌, ◌≡◌, ◌≢◌, refl, ◌∙◌, ap, Bool, true, false,
  Option, none, some, List, [], ◌∷◌, ◌==◌, ltb, min, arith, length, if◌then◌else◌,
}
use wpi_operating_systems.Files.Disk.{Block, Disk, Fs, Cmd, ◌>>=◌, ok, and_then, and_then-ok, pure}
use wpi_operating_systems.Files.Disk.Usable.{after_read, IsUsable, with_disk, wread-ok}
use wpi_operating_systems.Files.Inodes.{Inode}
use wpi_operating_systems.Files.Inodes.Slots.{IsInode, read_inode-IsInode}
use wpi_operating_systems.Files.Bitmaps.Free.{get_elem?-get_or}
use wpi_operating_systems.Files.Operations.Consistent.{AllData, inode_at, IsConsistent, is_valid}
use wpi_operating_systems.Files.Operations.Lookup.{lookup-ok}
use wpi_operating_systems.Files.Transfer.{
  bytes_of, round_bytes, Cursor, seek, seek_direct, read_round, read_loop, read_length, wfsread,
}
use wpi_operating_systems.Files.Transfer.Bytes.{pointer, file, round_bytes-IsRound, joined}

-- The disk with another count of reads.
abbrev pub with_reads : Disk → ℕ → Disk
with_reads d r = record d { reads = r }

-- Direct pointers of an inode, all of them on the disk.
module _ (inode : Inode) (s : Fs) (five : length inode.direct ≡ 5) (v : IsUsable s.disk)
    (on_disk : (i : ℕ) → pointer inode.direct i < s.disk.blocks) where
  read_round-ok :
      (c : Cursor) (r : ℕ)
      → c.direct_iter < 5
      → read_round inode c (with_disk s (with_reads s.disk r))
        ≡ ok
            (record c {
              direct_iter = c.direct_iter + 1;
              data_buffer = s.disk.image (pointer inode.direct c.direct_iter);
            })
            (with_disk s (with_reads s.disk (r + 1)))
  unfolding read_round
  read_round-ok c r h =
      let near : ltb 4 c.direct_iter ≡ false = ground arith in
      rw (near, get_elem?-get_or inode.direct c.direct_iter (omega arith))
        (and_then-ok _ (
          wread-ok (pointer inode.direct c.direct_iter) (with_disk s (with_reads s.disk r))
            (record { blocks_small = v.blocks_small; no_error = v.no_error })
            (on_disk c.direct_iter)))

  -- The loop returns the bytes of the file from the cursor on.
  pub read_loop-bytes_of :
      (fuel left : ℕ) (c : Cursor) (r : ℕ)
      → left ≤ fuel
      → c.cur_offset < 4096
      → c.direct_iter * 4096 + c.cur_offset + left ≤ 20480
      → (q : ℕ) × (read_loop fuel inode left c (with_disk s (with_reads s.disk r))
          ≡ ok
              (bytes_of left (file s.disk.image inode.direct) (c.direct_iter * 4096 + c.cur_offset))
              (with_disk s (with_reads s.disk q)))
  unfolding read_loop bytes_of
  read_loop-bytes_of zero zero c r enough small inside = (r, refl)
  read_loop-bytes_of zero (suc left) c r enough small inside = absurd (omega arith)
  read_loop-bytes_of (suc fuel) zero c r enough small inside = (r, refl)
  read_loop-bytes_of (suc fuel) (suc left) c r enough small inside =
      let k : ℕ = round_bytes (suc left) c.cur_offset in
      let h = round_bytes-IsRound (suc left) c.cur_offset (omega arith) small in
      let d : Cursor = record c {
        direct_iter = c.direct_iter + 1;
        data_buffer = s.disk.image (pointer inode.direct c.direct_iter);
        cur_offset = 0;
      } in
      let (q, run) =
        read_loop-bytes_of fuel (suc left - k) d (r + 1)
          (omega (arith, h.some_bytes, h.in_left, h.in_block, h.whole)) (omega arith)
          (omega (arith, h.some_bytes, h.in_left, h.in_block, h.whole)) in
      (
        q,
        (let more : (suc left == 0) ≡ false = ground arith in
            rw more (
              and_then-ok _ (read_round-ok c r (omega arith))
              ∙ and_then-ok _ run
              ∙ ap (λ bs. ok bs (with_disk s (with_reads s.disk q)))
                  (joined s.disk.image inode.direct c.direct_iter c.cur_offset (suc left) k h))),
      )

pub AllData-pointer :
    (inode_blocks blocks : ℕ) (ds : List ℕ)
    → inode_blocks < blocks
    → AllData inode_blocks blocks ds
    → (i : ℕ) → pointer ds i < blocks
AllData-pointer inode_blocks blocks [] room h i = omega arith
AllData-pointer inode_blocks blocks (d ∷ ds) room (h, hs) zero = ground (arith, h)
AllData-pointer inode_blocks blocks (d ∷ ds) room (h, hs) (suc i) =
    AllData-pointer inode_blocks blocks ds room hs i

pub seek-offset :
    (offset : ℕ)
    → offset ≤ 20480
    → (seek offset).direct_iter * 4096 + (seek offset).cur_offset ≡ offset
unfolding seek seek_direct
seek-offset offset h = ground arith

read_length-in_file :
    (size len offset : ℕ)
    → size < 2 ^ 32
    → offset ≤ size
    → read_length size len offset ≡ min len (size - offset)
unfolding read_length
read_length-in_file size len offset h l =
    let e : (size + 2 ^ 64 - offset) % 2 ^ 64 ≡ size - offset = omega arith in ap (min len) e

-- What `wfsread` does with what was found.
abbrev read_bytes : ℕ → ℕ → Option (Block × Inode) → Cmd (Option (List ℕ))
read_bytes len offset none = pure none
read_bytes len offset (some (b, inode)) =
    read_loop (read_length inode.size len offset) inode (read_length inode.size len offset)
      (seek offset)
    >>= λ bytes. pure (some bytes)

read_bytes-ok :
    (inode_blocks len offset r : ℕ) (b : Block) (inode : Inode) (s : Fs)
    → IsUsable s.disk
    → inode_blocks < s.disk.blocks
    → IsInode inode
    → AllData inode_blocks s.disk.blocks inode.direct
    → offset ≤ inode.size
    → offset + min len (inode.size - offset) ≤ 20480
    → (q : ℕ) × (read_bytes len offset (some (b, inode)) (with_disk s (with_reads s.disk r))
        ≡ ok
            (some
              (bytes_of (min len (inode.size - offset)) (file s.disk.image inode.direct) offset))
            (with_disk s (with_reads s.disk q)))
read_bytes-ok inode_blocks len offset r b inode s v room i data_blocks in_file direct =
    let k : ℕ = min len (inode.size - offset) in
    let at = seek-offset offset (omega arith) in
    let (q, run) =
      read_loop-bytes_of inode s i.pointers v
        (AllData-pointer inode_blocks s.disk.blocks inode.direct room data_blocks) k k (seek offset)
        r (omega arith) (unfold seek in omega arith) (omega (arith, at, direct)) in
    (
      q,
      ap
            (λ m.
              and_then (read_loop m inode m (seek offset) (with_disk s (with_reads s.disk r)))
                (λ bytes. pure (some bytes)))
            (read_length-in_file inode.size len offset i.fits.1.0 in_file)
          ∙ and_then-ok _ run
          ∙ ap
              (λ p.
                ok (some (bytes_of k (file s.disk.image inode.direct) p))
                  (with_disk s (with_reads s.disk q)))
              at,
    )

-- On a mounted disk that is consistent, `wfsread` of a valid inode returns the bytes of the file from
-- the offset on, as many as asked for or as there are up to its size, if the offset is in the file and
-- the bytes are in the direct blocks; of an inode that is not valid it returns -1. It changes only
-- the count of reads.
pub wfsread-bytes_of :
    (inode_blocks n len offset : ℕ) (s : Fs)
    → IsConsistent inode_blocks s
    → s.disk.mounts ≢ 0
    → n < inode_blocks * 128
    → offset ≤ (inode_at s.disk.image n).size
    → offset + min len ((inode_at s.disk.image n).size - offset) ≤ 20480
    → (r : ℕ) × (wfsread n len offset s
        ≡ ok
            (if is_valid (inode_at s.disk.image n)
              then some (
                  bytes_of
                    (min len ((inode_at s.disk.image n).size - offset))
                    (file s.disk.image (inode_at s.disk.image n).direct)
                    offset)
              else none)
            (with_disk s (with_reads s.disk r)))
unfolding wfsread
wfsread-bytes_of inode_blocks n len offset s c mounted inside in_file direct =
    let (r, run) = by_cases (is_valid (inode_at s.disk.image n)) in
    (r, and_then-ok _ (lookup-ok inode_blocks n s c mounted inside) ∙ run)
  where
    by_cases :
        (b : Bool)
        → (r : ℕ) × (read_bytes len offset
              (if b then some (s.disk.image (n / 128 + 1), inode_at s.disk.image n) else none)
              (after_read s)
            ≡ ok
                (if b
                  then some (
                      bytes_of
                        (min len ((inode_at s.disk.image n).size - offset))
                        (file s.disk.image (inode_at s.disk.image n).direct)
                        offset)
                  else none)
                (with_disk s (with_reads s.disk r)))
    by_cases true =
        read_bytes-ok inode_blocks len offset (s.disk.reads + 1) (s.disk.image (n / 128 + 1))
          (inode_at s.disk.image n) s c.usable c.room
          (read_inode-IsInode (s.disk.image (n / 128 + 1)) (n % 128)
            (c.inode_bytes (n / 128 + 1) (omega arith)))
          (c.pointers n inside).0 in_file direct
    by_cases false = (s.disk.reads + 1, refl)
