-- ===== src/Files/Operations/Lookup.antt =====
-- How the operations find an inode that is in use.
use wpi_operating_systems.Base.{
  ℕ, ◌+◌, ◌-◌, ◌*◌, ◌/◌, ◌%◌, ◌^◌, ◌<◌, ◌≡◌, ◌≢◌, refl, ◌∙◌, ap, Bool, true, false, Option, none,
  some, ◌==◌, arith, length, get_or, if◌then◌else◌,
}
use wpi_operating_systems.Files.Disk.{
  Block, Fs, Cmd, wread, ◌>>=◌, ok, and_then, and_then-ok, pure, fail,
}
use wpi_operating_systems.Files.Disk.Usable.{after_read, wread-ok}
use wpi_operating_systems.Files.Inodes.{Inode, read_inode}
use wpi_operating_systems.Files.Bitmaps.{test_bit, byte_at}
use wpi_operating_systems.Files.Bitmaps.Bits.{bit_of}
use wpi_operating_systems.Files.Bitmaps.Free.{byte_at-ok}
use wpi_operating_systems.Files.Operations.{inode_block, is_taken, lookup, stat}
use wpi_operating_systems.Files.Operations.Consistent.{inode_at, IsConsistent, is_valid}

is_taken-ok :
    (n : ℕ) (s : Fs)
    → n / 8 < length s.i_bitmap
    → is_taken (n / 128 + 1) (n % 128) s ≡ ok (bit_of s.i_bitmap n) s
unfolding is_taken
is_taken-ok n s h =
    let row : (n / 128 + 1 - 1) * 16 + n % 128 / 8 ≡ n / 8 = omega arith in
    let column : n % 128 % 8 ≡ n % 8 = omega arith in
    let some_block : (n / 128 + 1 == 0) ≡ false = ground arith in
    ap (λ b. (if b then fail else read_at ((n / 128 + 1 - 1) * 16 + n % 128 / 8)) s) some_block
    ∙ ap (λ i. and_then (byte_at s.i_bitmap i s) (λ byte. pure (test_bit byte (n % 128 % 8)))) row
    ∙ and_then-ok _ (byte_at-ok s.i_bitmap (n / 8) s h)
    ∙ ap (λ c. ok (test_bit (get_or s.i_bitmap (n / 8) 0) c) s) column
  where
    read_at : ℕ → Cmd Bool
    read_at i t = and_then (byte_at s.i_bitmap i t) (λ byte. pure (test_bit byte (n % 128 % 8)))

-- A number of which the block is an `int`.
pub inode_block_lem : (n : ℕ) → n / 128 + 1 < 2 ^ 32 → inode_block n ≡ n / 128 + 1
unfolding inode_block
inode_block_lem n h = omega arith

-- `lookup`, by the answers to its tests.
abbrev by_bit : ℕ → Block → Bool → Cmd (Option (Block × Inode))
by_bit n b taken = if taken then pure (some (b, read_inode b (n % 128))) else pure none

abbrev by_mount : ℕ → ℕ → Bool → Cmd (Option (Block × Inode))
by_mount n at unmounted =
    if unmounted then pure none else (wread at >>= λ b. is_taken at (n % 128) >>= by_bit n b)

pub lookup_unmounted : (n : ℕ) (s : Fs) → s.disk.mounts ≡ 0 → lookup n s ≡ ok none s
unfolding lookup inode_block
lookup_unmounted n s e = ap (λ m. by_mount n (inode_block n) (m == 0) s) e

-- On a mounted disk that is consistent, a valid inode is found with its block.
pub lookup-ok :
    (inode_blocks n : ℕ) (s : Fs)
    → IsConsistent inode_blocks s
    → s.disk.mounts ≢ 0
    → n < inode_blocks * 128
    → lookup n s
      ≡ ok
          (if is_valid (inode_at s.disk.image n)
            then some (s.disk.image (n / 128 + 1), inode_at s.disk.image n)
            else none)
          (after_read s)
unfolding lookup inode_block
lookup-ok inode_blocks n s c mounted inside =
    let m : (s.disk.mounts == 0) ≡ false = ground arith in
    ap (λ b. by_mount n (inode_block n) b s) m
    ∙ ap (λ at. by_mount n at false s)
        (inode_block_lem n (omega (arith, c.room, c.usable.blocks_small)))
    ∙ and_then-ok _ (wread-ok (n / 128 + 1) s c.usable (omega (arith, c.room)))
    ∙ and_then-ok _ (is_taken-ok n (after_read s) (omega (arith, c.covers)))
    ∙ ap (λ b. by_bit n (s.disk.image (n / 128 + 1)) b (after_read s)) (c.agrees n inside)
    ∙ by_cases (is_valid (inode_at s.disk.image n))
  where
    by_cases :
        (b : Bool)
        → by_bit n (s.disk.image (n / 128 + 1)) b (after_read s)
          ≡ ok
              (if b then some (s.disk.image (n / 128 + 1), inode_at s.disk.image n) else none)
              (after_read s)
    by_cases true = refl
    by_cases false = refl

-- What `stat` returns for what was found.
abbrev answer : Option (Block × Inode) → Cmd (Option ℕ)
answer none = pure none
answer (some (b, inode)) = pure (some inode.size)

-- On a mounted disk that is consistent, `stat` returns the size of a valid inode and -1 for an inode
-- that is not valid, and changes only the count of reads.
stat-lookup :
    (inode_blocks n : ℕ) (s : Fs)
    → IsConsistent inode_blocks s
    → s.disk.mounts ≢ 0
    → n < inode_blocks * 128
    → stat n s
      ≡ ok
          (if is_valid (inode_at s.disk.image n) then some (inode_at s.disk.image n).size else none)
          (after_read s)
unfolding stat
stat-lookup inode_blocks n s c mounted inside =
    and_then-ok _ (lookup-ok inode_blocks n s c mounted inside)
    ∙ by_cases (is_valid (inode_at s.disk.image n))
  where
    by_cases :
        (b : Bool)
        → answer
            (if b then some (s.disk.image (n / 128 + 1), inode_at s.disk.image n) else none)
            (after_read s)
          ≡ ok (if b then some (inode_at s.disk.image n).size else none) (after_read s)
    by_cases true = refl
    by_cases false = refl
