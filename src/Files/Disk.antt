-- ===== src/Files/Disk.antt =====
-- disk.c: the emulated disk, and the commands of the file system on it. A block is a function from
-- offsets to bytes. The image file holds every block of the disk.
pub mod Usable
pub mod Image
use wpi_operating_systems.Base.{
  ℕ, zero, suc, ◌+◌, ◌*◌, ◌/◌, ◌%◌, ◌^◌, ◌≡◌, ap, Bool, Option, none, some, List, [], ◌∷◌, ◌||◌,
  leb, ltb, ◌==◌, if◌then◌else◌,
}

abbrev pub Block : Type 0
Block = ℕ → ℕ

abbrev pub block_size : ℕ
block_size = 4096

abbrev pub exit_failure : ℕ
exit_failure = 1

-- what a seek to a negative offset sets `errno` to
abbrev pub einval : ℕ
einval = 22

-- `struct _wdisk`, less the file descriptor; the contents of the image; and what the system answers
-- to a seek and a transfer at the block sought: `none`, or an error number.
pub record Disk : Type 0 where
  pub blocks : ℕ
  pub reads : ℕ
  pub writes : ℕ
  pub mounts : ℕ
  pub image : ℕ → Block
  pub io_error : ℕ → Option ℕ

-- The disk and the two bitmaps of goatfs.h; a null pointer is the empty list.
pub record Fs : Type 0 where
  pub disk : Disk
  pub i_bitmap : List ℕ
  pub d_bitmap : List ℕ

-- `exit` ends the program with a status, and `fault` is an access out of bounds.
pub data Run {ℓ} (A : Type ℓ) : Type ℓ where
  ok : A → Fs → Run A
  exit : ℕ → Run A
  fault : Run A

abbrev pub Cmd : Type 0 → Type 0
Cmd A = Fs → Run A

abbrev pub pure : {A : Type 0} → A → Cmd A
pure a s = ok a s

abbrev pub fail : {A : Type 0} → Cmd A
fail s = fault

module _ {A B : Type 0} where
  abbrev pub and_then : Run A → (A → Cmd B) → Run B
  and_then (ok a s) k = k a s
  and_then (exit n) k = exit n
  and_then fault k = fault

  infixl 5 ◌>>=◌ ◌>>◌
  abbrev pub ◌>>=◌ : Cmd A → (A → Cmd B) → Cmd B
  c >>= k = λ s. and_then (c s) k

  abbrev pub ◌>>◌ : Cmd A → Cmd B → Cmd B
  c >> d = c >>= λ _. d

module _ {A B : Type 0} where
  pub and_then-ok : (k : A → Cmd B) {r : Run A} {a : A} {s : Fs} → r ≡ ok a s → and_then r k ≡ k a s
  and_then-ok k e = ap (λ r. and_then r k) e

-- A block number is the 32 bits of an `int`: from 2 ^ 31 on it is negative, as `(int)disk.Blocks` is.
unfoldable pub sanity_check : Disk → ℕ → Bool
sanity_check d blocknum =
    leb (2 ^ 31) blocknum || (leb (2 ^ 31) (d.blocks % 2 ^ 32) || leb (d.blocks % 2 ^ 32) blocknum)

-- The offset that `lseek` is given, as the 32 bits of the `int` product.
unfoldable pub seek_offset : ℕ → ℕ
seek_offset blocknum = blocknum * block_size % 2 ^ 32

-- The block at that offset.
unfoldable pub seek_block : ℕ → ℕ
unfolding seek_offset
seek_block blocknum = seek_offset blocknum / block_size

-- The checks before a transfer: the status that the program ends with, if it does. An offset of
-- 2 ^ 31 or more is a negative `int`, which `lseek` refuses.
unfoldable pub refuses : Disk → ℕ → Option ℕ
unfolding sanity_check seek_offset seek_block
refuses d blocknum =
    if sanity_check d blocknum
    then some exit_failure
    else (if leb (2 ^ 31) (seek_offset blocknum)
        then some einval
        else d.io_error (seek_block blocknum))

unfoldable pub wread : ℕ → Cmd Block
unfolding refuses seek_block
wread blocknum s = elim (refuses s.disk blocknum) [
  | some e ↦ exit e
  | none ↦
      ok (s.disk.image (seek_block blocknum))
        (record s { disk = record s.disk { reads = s.disk.reads + 1 } })
]

-- The image with one block replaced.
unfoldable pub put_block : (ℕ → Block) → ℕ → Block → ℕ → Block
put_block image n b k = if k == n then b else image k

unfoldable pub wwrite : ℕ → Block → Cmd (Unit {0})
unfolding refuses seek_block
wwrite blocknum b s = elim (refuses s.disk blocknum) [
  | some e ↦ exit e
  | none ↦ ok tt (record s {
    disk = record s.disk {
      writes = s.disk.writes + 1;
      image = put_block s.disk.image (seek_block blocknum) b;
    };
  })
]

-- A block of zeros.
abbrev pub empty_block : Block
empty_block o = 0
