-- ===== src/Files/Inodes.antt =====
-- The super block and the inodes in the bytes of a block: `memcpy` between a block and the structs
-- of goatfs.h, whose fields are 4-byte words in little-endian order.
pub mod Slots
use wpi_operating_systems.Base.{
  ℕ, zero, suc, ◌+◌, ◌*◌, ◌/◌, ◌%◌, ◌^◌, ◌<◌, ◌≡◌, refl, ◌∙◌, List, [], ◌∷◌, ◌++◌, ◌==◌,
  if◌then◌else◌, arith,
}
use wpi_operating_systems.Files.Disk.{Block}

-- `struct _SuperBlock`
pub record SuperBlock : Type 0 where
  pub magic_number : ℕ
  pub blocks : ℕ
  pub inode_blocks : ℕ
  pub inodes : ℕ

-- `struct _Inode`
pub record Inode : Type 0 where
  pub valid : ℕ
  pub size : ℕ
  pub direct : List ℕ
  pub indirect : ℕ

-- the word at byte offset `o`
unfoldable pub word : Block → ℕ → ℕ
word b o = b o + 0x100 * b (o + 1) + 0x1_0000 * b (o + 2) + 0x100_0000 * b (o + 3)

unfoldable pub set_word : Block → ℕ → ℕ → Block
set_word b o v k =
    if k == o
    then v % 256
    else if k == o + 1
    then v / 0x100 % 256
    else if k == o + 2
    then v / 0x1_0000 % 256
    else if k == o + 3
    then v / 0x100_0000 % 256
    else b k

-- `n` words from byte offset `o` on
unfoldable pub words : ℕ → Block → ℕ → List ℕ
unfolding word
words zero b o = []
words (suc n) b o = word b o ∷ words n b (o + 4)

unfoldable pub set_words : Block → ℕ → List ℕ → Block
unfolding set_word
set_words b o [] = b
set_words b o (v ∷ vs) = set_words (set_word b o v) (o + 4) vs

unfoldable pub read_super : Block → SuperBlock
unfolding word
read_super b = record {
  magic_number = word b 0;
  blocks = word b 4;
  inode_blocks = word b 8;
  inodes = word b 12;
}

unfoldable pub write_super : Block → SuperBlock → Block
unfolding set_words
write_super b s = set_words b 0 (s.magic_number ∷ s.blocks ∷ s.inode_blocks ∷ s.inodes ∷ [])

abbrev pub inode_size : ℕ
inode_size = 32

abbrev pub pointers_per_inode : ℕ
pointers_per_inode = 5

unfoldable pub read_inode : Block → ℕ → Inode
unfolding words word
read_inode b j = record {
  valid = word b (j * inode_size);
  size = word b (j * inode_size + 4);
  direct = words pointers_per_inode b (j * inode_size + 8);
  indirect = word b (j * inode_size + 28);
}

unfoldable pub write_inode : Block → ℕ → Inode → Block
unfolding set_words
write_inode b j i =
    set_words b (j * inode_size) (i.valid ∷ i.size ∷ (i.direct ++ (i.indirect ∷ [])))

-- A word that fits in 32 bits is read back, and words elsewhere stay.
pub word-set_word : (b : Block) (o v : ℕ) → v < 2 ^ 32 → word (set_word b o v) o ≡ v
unfolding word set_word
word-set_word b o v h = ground arith

pub word-set_word_other :
    (b : Block) (o p v : ℕ) → o + 4 < p + 1 → word (set_word b p v) o ≡ word b o
unfolding word set_word
word-set_word_other b o p v h = ground arith

-- The super block is read back as it was written, if its fields fit in 32 bits.
pub read_super-write_super :
    (b : Block) (s : SuperBlock)
    → s.magic_number < 2 ^ 32
    → s.blocks < 2 ^ 32
    → s.inode_blocks < 2 ^ 32
    → s.inodes < 2 ^ 32
    → read_super (write_super b s) ≡ s
unfolding read_super write_super set_words
read_super-write_super b s h0 h1 h2 h3 =
    let b0 : Block = set_word b 0 s.magic_number in
    let b1 : Block = set_word b0 4 s.blocks in
    let b2 : Block = set_word b1 8 s.inode_blocks in
    let e0 : word (set_word b2 12 s.inodes) 0 ≡ s.magic_number =
      word-set_word_other b2 0 12 s.inodes (omega arith)
      ∙ word-set_word_other b1 0 8 s.inode_blocks (omega arith)
      ∙ word-set_word_other b0 0 4 s.blocks (omega arith)
      ∙ word-set_word b 0 s.magic_number h0 in
    let e1 : word (set_word b2 12 s.inodes) 4 ≡ s.blocks =
      word-set_word_other b2 4 12 s.inodes (omega arith)
      ∙ word-set_word_other b1 4 8 s.inode_blocks (omega arith)
      ∙ word-set_word b0 4 s.blocks h1 in
    let e2 : word (set_word b2 12 s.inodes) 8 ≡ s.inode_blocks =
      word-set_word_other b2 8 12 s.inodes (omega arith) ∙ word-set_word b1 8 s.inode_blocks h2 in
    let e3 : word (set_word b2 12 s.inodes) 12 ≡ s.inodes = word-set_word b2 12 s.inodes h3 in
    rw (e0, e1, e2, e3) refl
