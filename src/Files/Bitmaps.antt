-- ===== src/Files/Bitmaps.antt =====
-- The bitmaps of goatfs.c: which inodes and which data blocks are taken. An index out of bounds of
-- an array is a fault.
pub mod Free
pub mod Bits
pub mod FreeBlocks
use wpi_operating_systems.Base.{
  ℕ, zero, suc, ◌+◌, ◌-◌, ◌*◌, ◌/◌, ◌%◌, ◌^◌, Bool, Option, none, some, List, [], ◌∷◌, ltb, leb,
  ◌==◌, if◌then◌else◌, not, get_elem?, set,
}
use wpi_operating_systems.Files.Disk.{Fs, Cmd, Run, ok, fault, pure, fail, ◌>>=◌, ◌>>◌, wread}
use wpi_operating_systems.Files.Inodes.{Inode, words}

-- `(int)ceil(n * .1)`: the number of inode blocks of a disk of `n` blocks
unfoldable pub inode_blocks_of : ℕ → ℕ
inode_blocks_of n = (n + 9) / 10

-- `byte >> k & 1`
unfoldable pub test_bit : ℕ → ℕ → Bool
test_bit byte k = byte / 2 ^ k % 2 == 1

-- `byte | 1 << k`
unfoldable pub set_bit : ℕ → ℕ → ℕ
unfolding test_bit
set_bit byte k = if test_bit byte k then byte else byte + 2 ^ k

-- `byte & ~(1 << k)`
unfoldable pub clear_bit : ℕ → ℕ → ℕ
unfolding test_bit
clear_bit byte k = if test_bit byte k then byte - 2 ^ k else byte

-- The byte at an index of a bitmap.
unfoldable pub byte_at : List ℕ → ℕ → Cmd ℕ
byte_at bitmap i s = elim (get_elem? bitmap i) [ none ↦ fault | some b ↦ ok b s ]

unfoldable pub set_i_byte : ℕ → ℕ → Cmd (Unit {0})
set_i_byte i b s = ok tt (record s { i_bitmap = set s.i_bitmap i b })

unfoldable pub set_d_byte : ℕ → ℕ → Cmd (Unit {0})
set_d_byte i b s = ok tt (record s { d_bitmap = set s.d_bitmap i b })

-- The bit of a data block is set. A pointer to a block before the data blocks is an index below 0.
unfoldable pub update_dbitmap : ℕ → Cmd (Unit {0})
unfolding inode_blocks_of byte_at set_d_byte set_bit
update_dbitmap d_pointer s =
    let inode_blocks = inode_blocks_of s.disk.blocks in
    let index = d_pointer - inode_blocks - 1 in
    (if ltb d_pointer (inode_blocks + 1) then fail else do
      byte ← byte_at s.d_bitmap (index / 8)
      set_d_byte (index / 8) (set_bit byte (index % 8)))
      s

-- The direct blocks from the front, up to one that is 0; the Boolean says that all were set.
unfoldable pub mark_direct : List ℕ → Cmd Bool
unfolding update_dbitmap
mark_direct [] = pure Bool.true
mark_direct (b ∷ bs) = if b == 0 then pure Bool.false else do update_dbitmap b; mark_direct bs

-- The pointers of an indirect block, up to one that is 0; behind the last one the buffer ends.
unfoldable pub mark_indirect : List ℕ → Cmd (Unit {0})
unfolding update_dbitmap
mark_indirect [] = fail
mark_indirect (b ∷ bs) = if b == 0 then pure tt else do update_dbitmap b; mark_indirect bs

unfoldable pub populate_d_bitmap : Inode → Cmd (Unit {0})
unfolding mark_direct mark_indirect words wread
populate_d_bitmap inode = do
  all ← mark_direct inode.direct
  if not all
      then pure tt
      else if inode.indirect == 0
      then pure tt
      else (do b ← wread inode.indirect; mark_indirect (words 1024 b 0))

-- The first clear bit of a byte, from bit `j` on.
unfoldable pub find_bit : ℕ → ℕ → ℕ → Option ℕ
unfolding test_bit
find_bit zero byte j = none
find_bit (suc n) byte j =
    let rest = find_bit n byte (j + 1) in if test_bit byte j then rest else some j

-- The byte `i` of the 16, and `rest` for the search in those behind it.
unfoldable pub search_byte : Run (Option ℕ) → ℕ → ℕ → Cmd (Option ℕ)
unfolding find_bit
search_byte rest i byte s =
    if byte == 0xff
    then rest
    else elim (find_bit 8 byte 0) [ none ↦ rest | some j ↦ ok (some (i * 8 + j)) s ]

-- The `n` bytes from the `i`-th on of the 16 that the inode block `block_index` has.
unfoldable pub find_in_bytes : ℕ → ℕ → ℕ → Cmd (Option ℕ)
unfolding search_byte
find_in_bytes block_index zero i s = ok none s
find_in_bytes block_index (suc n) i s =
    let rest = find_in_bytes block_index n (i + 1) s in
    elim (get_elem? s.i_bitmap (block_index * 16 + i)) [
      | none ↦ fault
      | some byte ↦ search_byte rest i byte s
    ]

-- `none` for -1
unfoldable pub find_free_inode : ℕ → Cmd (Option ℕ)
unfolding find_in_bytes
find_free_inode block_index = find_in_bytes block_index 16 0

-- The data blocks from the `i`-th on, `n` of them.
unfoldable pub find_in_data : ℕ → ℕ → ℕ → Cmd (Option ℕ)
unfolding test_bit
find_in_data inode_blocks zero i s = ok none s
find_in_data inode_blocks (suc n) i s =
    let rest = find_in_data inode_blocks n (i + 1) s in
    elim (get_elem? s.d_bitmap (i / 8)) [
      | none ↦ fault
      | some byte ↦ if test_bit byte (i % 8) then rest else ok (some (i + inode_blocks + 1)) s
    ]

unfoldable pub find_free_dblock : Cmd (Option ℕ)
unfolding find_in_data inode_blocks_of
find_free_dblock s =
    let inode_blocks = inode_blocks_of s.disk.blocks in
    find_in_data inode_blocks (s.disk.blocks - inode_blocks - 1) 0 s
