-- ===== src/Files/Disk/Usable.antt =====
-- Reads and writes in range of a disk whose transfers succeed.
use wpi_operating_systems.Base.{ℕ, ◌+◌, ◌^◌, ◌≤◌, ◌<◌, ◌≡◌, refl, ◌∙◌, ap, none, arith}
use wpi_operating_systems.Files.Disk.{
  Disk, Block, Fs, ok, sanity_check, seek_offset, seek_block, refuses, wread, wwrite, put_block,
}

-- A disk of which each offset is an `int`, and on which seeks and transfers succeed.
pub record IsUsable (d : Disk) : Type 0 where
  pub blocks_small : d.blocks ≤ 2 ^ 19
  pub no_error : (n : ℕ) → d.io_error n ≡ none

abbrev pub with_disk : Fs → Disk → Fs
with_disk s d = record s { disk = d }

abbrev pub counted : Disk → Disk
counted d = record d { reads = d.reads + 1 }

-- The state after a read.
abbrev pub after_read : Fs → Fs
after_read s = with_disk s (counted s.disk)

abbrev pub written : Disk → ℕ → Block → Disk
written d n b = record d { writes = d.writes + 1; image = put_block d.image n b }

refuses-none : (d : Disk) (n : ℕ) → IsUsable d → n < d.blocks → refuses d n ≡ none
unfolding refuses sanity_check seek_offset
refuses-none d n v h = let small = v.blocks_small in ground (arith, v.no_error (seek_block n))

-- On such a disk the offset of a block is not cut.
seek_block_lem : (d : Disk) (n : ℕ) → IsUsable d → n < d.blocks → seek_block n ≡ n
unfolding seek_block seek_offset
seek_block_lem d n v h = omega (arith, v.blocks_small)

pub wread-ok :
    (n : ℕ) (s : Fs)
    → IsUsable s.disk
    → n < s.disk.blocks
    → wread n s ≡ ok (s.disk.image n) (with_disk s (counted s.disk))
unfolding wread
wread-ok n s v h =
    rw (wread, refuses-none s.disk n v h) refl
    ∙ ap (λ k. ok (s.disk.image k) (with_disk s (counted s.disk))) (seek_block_lem s.disk n v h)

pub wwrite-ok :
    (n : ℕ) (b : Block) (s : Fs)
    → IsUsable s.disk
    → n < s.disk.blocks
    → wwrite n b s ≡ ok tt (with_disk s (written s.disk n b))
unfolding wwrite
wwrite-ok n b s v h =
    rw (wwrite, refuses-none s.disk n v h) refl
    ∙ ap (λ k. ok tt (with_disk s (written s.disk k b))) (seek_block_lem s.disk n v h)
