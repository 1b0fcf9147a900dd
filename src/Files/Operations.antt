-- ===== src/Files/Operations.antt =====
-- create, wremove and stat of goatfs.c.
pub mod Consistent
pub mod Create
pub mod Remove
pub mod Lookup
use wpi_operating_systems.Base.{
  ℕ, zero, suc, ◌+◌, ◌-◌, ◌*◌, ◌/◌, ◌%◌, ◌^◌, Bool, true, false, Option, none, some, List, [], ◌∷◌,
  ltb, ◌==◌, if◌then◌else◌, ℤ, pos,
}
use wpi_operating_systems.Files.Disk.{
  Block, Cmd, pure, fail, ◌>>=◌, ◌>>◌, wread, wwrite, empty_block,
}
use wpi_operating_systems.Files.Inodes.{Inode, read_super, read_inode, write_inode, words}
use wpi_operating_systems.Files.Bitmaps.{
  set_bit, clear_bit, test_bit, byte_at, set_i_byte, find_free_inode,
}
use wpi_operating_systems.Files.Mounting.{err_create_inode}

-- The block of an inode, as the 32 bits of an `int`.
unfoldable pub inode_block : ℕ → ℕ
inode_block inumber = (inumber / 128 + 1) % 2 ^ 32

-- An inode becomes valid and empty; its direct pointers stay as they were.
unfoldable pub write_Inode : ℕ → ℕ → Cmd (Unit {0})
unfolding wread wwrite read_inode write_inode
write_Inode block_index inode_index = do
  b ← wread block_index
  wwrite block_index (
      write_inode b inode_index
        (record (read_inode b inode_index) { valid = 1; indirect = 0; size = 0 }))

-- The bit of inode `index` of inode block `i` is set.
unfoldable pub take_inode : ℕ → ℕ → Cmd (Unit {0})
unfolding byte_at set_i_byte set_bit
take_inode i index s =
    (do
      byte ← byte_at s.i_bitmap (i * 16 + index / 8)
      set_i_byte (i * 16 + index / 8) (set_bit byte (index % 8)))
      s

-- The inode blocks from `i` on, `n` of them.
unfoldable pub create_from : ℕ → ℕ → Cmd ℤ
unfolding find_free_inode write_Inode take_inode
create_from zero i = pure err_create_inode
create_from (suc n) i =
    let rest = create_from n (i + 1) in
    (do
      free ← find_free_inode i
      elim free [
        | none ↦ rest
        | some index ↦ do write_Inode (i + 1) index; take_inode i index; pure (pos index)
      ])

unfoldable pub create : Cmd ℤ
unfolding wread read_super create_from
create = do b ← wread 0; create_from (read_super b).inode_blocks 0

-- The blocks of a list are cleared, up to a pointer that is 0.
unfoldable pub clear_pointed : List ℕ → Cmd (Unit {0})
unfolding wwrite
clear_pointed [] = pure tt
clear_pointed (p ∷ ps) = if p == 0 then pure tt else do wwrite p empty_block; clear_pointed ps

-- Those pointers become 0.
unfoldable pub reset_pointed : List ℕ → List ℕ
reset_pointed [] = []
reset_pointed (p ∷ ps) = if p == 0 then p ∷ ps else 0 ∷ reset_pointed ps

unfoldable pub clear_indirect : ℕ → Cmd (Unit {0})
unfolding clear_pointed wread wwrite words
clear_indirect indirect =
    if indirect == 0
    then pure tt
    else do b ← wread indirect; clear_pointed (words 1024 b 0); wwrite indirect empty_block

-- The bit of the inode is cleared. The index is below the bitmap at block 0.
unfoldable pub drop_inode : ℕ → ℕ → Cmd (Unit {0})
unfolding byte_at set_i_byte clear_bit
drop_inode block_index inode_offset s =
    let i = ((block_index - 1) * 128 + inode_offset) / 8 in
    (if block_index == 0
        then fail
        else do byte ← byte_at s.i_bitmap i; set_i_byte i (clear_bit byte (inode_offset % 8)))
      s

-- What `wremove` does with a valid inode of the block `b`.
unfoldable pub remove_inode : ℕ → ℕ → Block → Inode → Cmd Bool
unfolding clear_pointed reset_pointed clear_indirect drop_inode wwrite write_inode
remove_inode block_index inode_offset b inode = do
  clear_pointed inode.direct
  clear_indirect inode.indirect
  wwrite block_index (
      write_inode b inode_offset
        (record { valid = 0; size = 0; direct = reset_pointed inode.direct; indirect = 0 }))
  drop_inode block_index inode_offset
  pure true

unfoldable pub wremove : ℕ → Cmd Bool
unfolding inode_block wread read_super read_inode remove_inode
wremove inumber s =
    let block_index = inode_block inumber in
    (if s.disk.mounts == 0 then pure false else do
      sb ← wread 0
      if ltb (read_super sb).inode_blocks block_index then pure false else do
        b ← wread block_index
        if (read_inode b (inumber % 128)).valid == 0
            then pure false
            else remove_inode block_index (inumber % 128) b (read_inode b (inumber % 128)))
      s

-- Whether the bit of the inode is set. The index is below the bitmap at block 0.
unfoldable pub is_taken : ℕ → ℕ → Cmd Bool
unfolding byte_at test_bit
is_taken block_index inode_offset s =
    (if block_index == 0 then fail else do
      byte ← byte_at s.i_bitmap ((block_index - 1) * 16 + inode_offset / 8)
      pure (test_bit byte (inode_offset % 8)))
      s

-- The inode if it is taken; `none` for the return of -1.
unfoldable pub lookup : ℕ → Cmd (Option (Block × Inode))
unfolding inode_block wread is_taken read_inode
lookup inumber s =
    let block_index = inode_block inumber in
    (if s.disk.mounts == 0 then pure none else do
      b ← wread block_index
      taken ← is_taken block_index (inumber % 128)
      if taken then pure (some (b, read_inode b (inumber % 128))) else pure none)
      s

unfoldable pub stat : ℕ → Cmd (Option ℕ)
unfolding lookup
stat inumber = do
  found ← lookup inumber
  elim found [ none ↦ pure none | some (b, inode) ↦ pure (some inode.size) ]
