-- ===== src/Files/Display.antt =====
-- What `debug` of goatfs.c prints, as a list of lines.
pub mod Fresh
use wpi_operating_systems.Base.{
  ℕ, zero, suc, ◌+◌, Bool, true, false, List, [], ◌∷◌, ◌++◌, ◌==◌, if◌then◌else◌, length,
}
use wpi_operating_systems.Files.Disk.{Block, Cmd, pure, fail, ◌>>=◌, wread}
use wpi_operating_systems.Files.Inodes.{
  SuperBlock, Inode, pointers_per_inode, words, read_super, read_inode,
}
use wpi_operating_systems.Files.Mounting.{magic_number}

-- The lines by their format, with the numbers in them.
pub data Line : Type 0 where
  super_block_line magic_valid_line magic_invalid_line : Line
  blocks_line inode_blocks_line inodes_line inode_line size_line indirect_line : ℕ → Line
  direct_line indirect_data_line : List ℕ → Line

-- The Boolean is the error that is returned.
unfoldable pub display_super_block : SuperBlock → Bool × List Line
display_super_block sb =
    if sb.magic_number == magic_number
    then (
      false,
      super_block_line
          ∷ magic_valid_line
          ∷ blocks_line sb.blocks
          ∷ inode_blocks_line sb.inode_blocks
          ∷ inodes_line sb.inodes
          ∷ [],
    )
    else (true, super_block_line ∷ magic_invalid_line ∷ [])

-- the direct blocks up to one that is 0
unfoldable pub up_to_zero : List ℕ → List ℕ
up_to_zero [] = []
up_to_zero (p ∷ ps) = if p == 0 then [] else p ∷ up_to_zero ps

-- The pointers of an indirect block up to one that is 0; the buffer ends behind the last one.
unfoldable pub indirect_pointers : List ℕ → Cmd (List ℕ)
indirect_pointers [] = fail
indirect_pointers (p ∷ ps) =
    if p == 0 then pure [] else do rest ← indirect_pointers ps; pure (p ∷ rest)

unfoldable pub display_inode : Inode → ℕ → Cmd (List Line)
unfolding up_to_zero indirect_pointers wread words
display_inode inode position =
    let direct = up_to_zero inode.direct in
    let lines : List Line = inode_line position ∷ size_line inode.size ∷ direct_line direct ∷ [] in
    if length direct == pointers_per_inode
    then (do
      b ← wread inode.indirect
      ps ← indirect_pointers (words 1024 b 0)
      pure (lines ++ (indirect_line inode.indirect ∷ indirect_data_line ps ∷ [])))
    else pure lines

-- The lines of an inode, and those of `rest`.
unfoldable pub display_listed : Inode → ℕ → Cmd (List Line) → Cmd (List Line)
unfolding display_inode
display_listed inode j rest = do lines ← display_inode inode j; more ← rest; pure (lines ++ more)

-- An inode of the table, and `rest` for those behind it: one that is not valid is skipped.
unfoldable pub display_valid : Inode → ℕ → Cmd (List Line) → Cmd (List Line)
unfolding display_listed
display_valid inode j rest = if inode.valid == 0 then rest else display_listed inode j rest

-- The inodes of a block from `j` on, `n` of them.
unfoldable pub display_inodes : Block → ℕ → ℕ → Cmd (List Line)
unfolding display_valid read_inode
display_inodes b zero j = pure []
display_inodes b (suc n) j = display_valid (read_inode b j) j (display_inodes b n (j + 1))

-- The inode blocks from `i` on, `n` of them.
unfoldable pub display_blocks : ℕ → ℕ → Cmd (List Line)
unfolding display_inodes wread
display_blocks zero i = pure []
display_blocks (suc n) i = do
  b ← wread (i + 1)
  lines ← display_inodes b 128 0
  more ← display_blocks n (i + 1)
  pure (lines ++ more)

-- What follows the display of the super block.
unfoldable pub display_rest : Bool × List Line → ℕ → Cmd (List Line)
unfolding display_blocks
display_rest (true, lines) inode_blocks = pure lines
display_rest (false, lines) inode_blocks = do
  more ← display_blocks inode_blocks 0
  pure (lines ++ more)

unfoldable pub debug : Cmd (List Line)
unfolding display_super_block display_rest wread read_super
debug = do
  b ← wread 0
  display_rest (display_super_block (read_super b)) (read_super b).inode_blocks
