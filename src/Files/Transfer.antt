-- ===== src/Files/Transfer.antt =====
-- wfsread and wfswrite of goatfs.c. The loops run on fuel; every round moves at least one byte, so
-- the number of bytes is fuel enough. `none` for the return of -1.
pub mod Overwrites
pub mod Bytes
pub mod Reads
pub mod Extends
pub mod Writable
pub mod Writes
pub mod WriteRound
pub mod WriteLoop
pub mod Rewrites
pub mod Finish
pub mod Stores
pub mod RoundTrip
pub mod Disjoint
pub mod Isolated
use wpi_operating_systems.Base.{
  ℕ, zero, suc, ◌+◌, ◌-◌, ◌*◌, ◌/◌, ◌%◌, ◌^◌, min, Bool, true, false, Option, none, some, List, [],
  ◌∷◌, ◌++◌, ltb, leb, ◌==◌, ◌&&◌, if◌then◌else◌, not, get_elem?, set, take, drop, length,
}
use wpi_operating_systems.Files.Disk.{
  Block, block_size, Fs, Cmd, Run, ok, fault, pure, fail, ◌>>=◌, ◌>>◌, wread, wwrite, empty_block,
}
use wpi_operating_systems.Files.Inodes.{Inode, word, write_inode}
use wpi_operating_systems.Files.Bitmaps.{update_dbitmap, find_free_dblock}
use wpi_operating_systems.Files.Operations.{inode_block, lookup}

-- `n` bytes of a block from `o` on
unfoldable pub bytes_of : ℕ → Block → ℕ → List ℕ
bytes_of zero b o = []
bytes_of (suc n) b o = b o ∷ bytes_of n b (o + 1)

-- A block with bytes put at `o`.
unfoldable pub put_bytes : Block → ℕ → List ℕ → Block
put_bytes b o [] k = b k
put_bytes b o (x ∷ xs) k = if k == o then x else put_bytes b (o + 1) xs k

-- `direct_iter` and `indirect_iter` for the block an offset lies in
unfoldable pub seek_direct : ℕ → ℕ
seek_direct offset = if leb (offset / block_size) 5 then offset / block_size else 5

unfoldable pub seek_indirect : ℕ → ℕ
seek_indirect offset = offset / block_size - 5

-- The bytes of a round: to the end of the block, or all that are left.
unfoldable pub round_bytes : ℕ → ℕ → ℕ
round_bytes bytes_left cur_offset =
    if ltb block_size (bytes_left + cur_offset) then block_size - cur_offset else bytes_left

-- The variables of the loops.
pub record Cursor : Type 0 where
  pub direct_iter : ℕ
  pub indirect_iter : ℕ
  pub cur_offset : ℕ
  pub indirect_buffer : Block
  pub data_buffer : Block

unfoldable pub seek : ℕ → Cursor
unfolding seek_direct seek_indirect
seek offset = record {
  direct_iter = seek_direct offset;
  indirect_iter = seek_indirect offset;
  cur_offset = offset % block_size;
  indirect_buffer = empty_block;
  data_buffer = empty_block;
}

-- The pointer at an index of the indirect block; behind 1024 of them the buffer ends.
unfoldable pub pointer_at : Block → ℕ → Cmd ℕ
unfolding word
pointer_at b i = if ltb i 1024 then pure (word b (4 * i)) else fail

-- A round of `wfsread` reads a block: the cursor behind it.
unfoldable pub read_round : Inode → Cursor → Cmd Cursor
unfolding wread pointer_at
read_round inode c =
    if ltb 4 c.direct_iter
    then (do
      indirect ← (if c.indirect_buffer 0 == 0 then wread inode.indirect else pure c.indirect_buffer)
      p ← pointer_at indirect c.indirect_iter
      b ← wread p
      pure (record c {
        indirect_iter = c.indirect_iter + 1;
        indirect_buffer = indirect;
        data_buffer = b;
      }))
    else elim (get_elem? inode.direct c.direct_iter) [
      | none ↦ fail
      | some p ↦ do
        b ← wread p
        pure (record c { direct_iter = c.direct_iter + 1; data_buffer = b })
    ]

unfoldable pub read_loop : ℕ → Inode → ℕ → Cursor → Cmd (List ℕ)
unfolding read_round round_bytes bytes_of
read_loop zero inode bytes_left c = pure []
read_loop (suc fuel) inode bytes_left c = if bytes_left == 0 then pure [] else do
  d ← read_round inode c
  rest ←
      read_loop fuel inode (bytes_left - round_bytes bytes_left c.cur_offset)
        (record d { cur_offset = 0 })
  pure (bytes_of (round_bytes bytes_left c.cur_offset) d.data_buffer c.cur_offset ++ rest)

-- `min(length, inode->Size - offset)` in size_t
unfoldable pub read_length : ℕ → ℕ → ℕ → ℕ
read_length size len offset = min len ((size + 2 ^ 64 - offset) % 2 ^ 64)

-- The bytes that are put at `data`; the count returned is their number.
unfoldable pub wfsread : ℕ → ℕ → ℕ → Cmd (Option (List ℕ))
unfolding lookup read_loop seek read_length
wfsread inumber len offset = do
  found ← lookup inumber
  elim found [
    | none ↦ pure none
    | some (b, inode) ↦ do
      bytes ←
          read_loop (read_length inode.size len offset) inode (read_length inode.size len offset)
            (seek offset)
      pure (some bytes)
  ]

-- A direct pointer that is 0 gets a free block: `none` where there is none.
unfoldable pub assign_direct : Inode → ℕ → ℕ → Cmd (Option (Inode × ℕ))
unfolding find_free_dblock update_dbitmap
assign_direct inode i p = if not (p == 0) then pure (some (inode, p)) else do
  free ← find_free_dblock
  elim free [
    | none ↦ pure none
    | some q ↦ do update_dbitmap q; pure (some (record inode { direct = set inode.direct i q }, q))
  ]

-- The buffer of pointers, read where there is an indirect block.
unfoldable pub load_indirect : Inode → Cursor → Cmd Block
unfolding wread
load_indirect inode c =
    if (c.indirect_buffer 0 == 0) && not (inode.indirect == 0)
    then wread inode.indirect
    else pure c.indirect_buffer

-- The round behind the direct blocks: the block is not read before it is written.
unfoldable pub write_indirect : Inode → Cursor → List ℕ → Cmd (Option (Inode × Cursor))
unfolding load_indirect wwrite pointer_at put_bytes
write_indirect inode c xs = do
  indirect ← load_indirect inode c
  p ← pointer_at indirect c.indirect_iter
  wwrite p (put_bytes c.data_buffer c.cur_offset xs)
  pure (
      some (
        inode,
        record c {
          indirect_iter = c.indirect_iter + 1;
          indirect_buffer = indirect;
          data_buffer = put_bytes c.data_buffer c.cur_offset xs;
        },
      ))

-- The round at a direct block.
unfoldable pub write_direct : Inode → Cursor → List ℕ → Cmd (Option (Inode × Cursor))
unfolding wread wwrite put_bytes assign_direct
write_direct inode c xs = elim (get_elem? inode.direct c.direct_iter) [
  | none ↦ fail
  | some p ↦ do
    assigned ← assign_direct inode c.direct_iter p
    elim assigned [
      | none ↦ pure none
      | some (inode', q) ↦ do
        b ← wread q
        wwrite q (put_bytes b c.cur_offset xs)
        pure (
            some (
              inode',
              record c {
                direct_iter = c.direct_iter + 1;
                data_buffer = put_bytes b c.cur_offset xs;
              },
            ))
    ]
]

-- A round of `wfswrite` writes the bytes `xs` into a block.
unfoldable pub write_round : Inode → Cursor → List ℕ → Cmd (Option (Inode × Cursor))
unfolding write_indirect write_direct
write_round inode c xs =
    if ltb 4 c.direct_iter then write_indirect inode c xs else write_direct inode c xs

-- The loop over the bytes that are left: the inode in the end, `none` where no block is free.
unfoldable pub write_loop : ℕ → Inode → Cursor → List ℕ → Cmd (Option Inode)
unfolding write_round round_bytes
write_loop zero inode c xs = pure (some inode)
write_loop (suc fuel) inode c xs = if length xs == 0 then pure (some inode) else do
  done ← write_round inode c (take (round_bytes (length xs) c.cur_offset) xs)
  elim done [
    | none ↦ pure none
    | some (inode', d) ↦
        write_loop fuel inode' (record d { cur_offset = 0 })
          (drop (round_bytes (length xs) c.cur_offset) xs)
  ]

unfoldable pub wfswrite : ℕ → List ℕ → ℕ → Cmd (Option ℕ)
unfolding lookup write_loop seek wwrite write_inode inode_block
wfswrite inumber bytes offset = do
  found ← lookup inumber
  elim found [
    | none ↦ pure none
    | some (b, inode) ↦ do
      written ← write_loop (length bytes) inode (seek offset) bytes
      elim written [
        | none ↦ pure none
        | some inode' ↦ do
          wwrite (inode_block inumber) (
              write_inode b (inumber % 128)
                (record inode' { size = (inode'.size + length bytes) % 2 ^ 32 }))
          pure (some (length bytes))
      ]
  ]
