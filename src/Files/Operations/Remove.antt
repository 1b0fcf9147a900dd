-- ===== src/Files/Operations/Remove.antt =====
-- `wremove` frees an inode and clears its blocks.
pub mod Cleared
pub mod Removed
use wpi_operating_systems.Base.{
  ℕ, zero, suc, ◌+◌, ◌-◌, ◌*◌, ◌/◌, ◌%◌, ◌^◌, ◌≤◌, ◌<◌, ◌≡◌, ◌≢◌, ◌⊎◌, inl, inr, refl, sym, ◌∙◌, ap,
  subst, Bool, true, false, Bool-cases, Option, none, some, List, [], ◌∷◌, ◌++◌, ◌==◌, not, ltb,
  arith, length, get_or, set, if◌then◌else◌, length-set,
}
use wpi_operating_systems.Files.Disk.{
  Block, Disk, Fs, Run, Cmd, wread, ◌>>=◌, ok, and_then, and_then-ok, pure, put_block, empty_block,
}
use wpi_operating_systems.Files.Disk.Usable.{
  after_read, IsUsable, with_disk, counted, written, wread-ok, wwrite-ok,
}
use wpi_operating_systems.Files.Inodes.{Inode, read_super, read_inode, write_inode}
use wpi_operating_systems.Files.Inodes.Slots.{IsInode, AllWords, read_inode-IsInode}
use wpi_operating_systems.Files.Bitmaps.{clear_bit, set_i_byte, byte_at}
use wpi_operating_systems.Files.Bitmaps.Bits.{without_bit, bit_of-without_bit, without_bit-AllBytes}
use wpi_operating_systems.Files.Bitmaps.Free.{byte_at-ok}
use wpi_operating_systems.Files.Operations.{
  clear_pointed, reset_pointed, clear_indirect, drop_inode, inode_block, remove_inode, wremove,
}
use wpi_operating_systems.Files.Operations.Consistent.{
  inode_at, with_inode, AllData, IsConsistent, is_valid, IsRewritten, inode_at-IsRewritten,
  IsRewritten-IsConsistent,
}
use wpi_operating_systems.Files.Operations.Lookup.{inode_block_lem}
use wpi_operating_systems.Files.Operations.Remove.Cleared.{
  cleared_disk, Kept, cleared_disk-Kept, clear_pointed-ok, AllCleared, AllCleared-cleared_disk,
  AllCleared-put_block,
}
use wpi_operating_systems.Files.Operations.Remove.Removed.{
  dropped, removed, remove_inode-ok, removed-IsRewritten, dropped-inode_at-IsInode,
  removed-IsConsistent, removed-AllCleared, IsConsistent-after_read,
}

-- What `wremove` returns and leaves. It returns false without a mount, for a number behind the inodes
-- or for an inode that is not valid: blocks and bitmaps are as before. Otherwise the inode is not valid
-- and empty afterwards, its direct blocks are zeros, the other inodes are as before, and so is the
-- bitmap of the data blocks.
abbrev pub RemovesInode : ℕ → ℕ → Fs → Bool → Fs → Type 0
RemovesInode inode_blocks n s false t =
    ((s.disk.mounts ≡ 0)
      ⊎ ((inode_blocks * 128 ≤ n) ⊎ (is_valid (inode_at s.disk.image n) ≡ false)))
    × (t.disk.image ≡ s.disk.image)
    × (t.i_bitmap ≡ s.i_bitmap)
    × (t.d_bitmap ≡ s.d_bitmap)
RemovesInode inode_blocks n s true t =
    (s.disk.mounts ≢ 0)
    × (n < inode_blocks * 128)
    × (is_valid (inode_at s.disk.image n) ≡ true)
    × ((m : ℕ)
        → m < inode_blocks * 128
        → inode_at t.disk.image m
          ≡ (if m == n then dropped (inode_at s.disk.image n) else inode_at s.disk.image m))
    × AllCleared t.disk.image (inode_at s.disk.image n).direct
    × (t.d_bitmap ≡ s.d_bitmap)

-- The parts of `wremove`, by the answers to its tests.
abbrev by_valid : ℕ → ℕ → Block → Bool → Cmd Bool
by_valid n at b invalid =
    if invalid then pure false else remove_inode at (n % 128) b (read_inode b (n % 128))

abbrev from_block : ℕ → ℕ → Block → Cmd Bool
from_block n at b = by_valid n at b ((read_inode b (n % 128)).valid == 0)

abbrev by_bound : ℕ → ℕ → Bool → Cmd Bool
by_bound n at outside = if outside then pure false else wread at >>= from_block n at

abbrev from_super : ℕ → ℕ → ℕ → Cmd Bool
from_super n at inode_blocks = by_bound n at (ltb inode_blocks at)

abbrev by_mount : ℕ → ℕ → Bool → Cmd Bool
by_mount n at unmounted =
    if unmounted then pure false else wread 0 >>= λ sb. from_super n at (read_super sb).inode_blocks

-- On a consistent disk `wremove` of a number below 128 * (2 ^ 32 - 1), of which the block fits into
-- 32 bits, returns, and the disk stays consistent. It returns false without a
-- mount, for a number behind the inodes and for an inode that is not valid, and then changes no block
-- and no bitmap. Otherwise it returns true: the inode is not valid and empty, its direct blocks up to
-- a pointer that is 0 are zeros, the other inodes are as before, and the bitmap of the data blocks
-- still has the blocks that were cleared.
pub wremove-IsConsistent :
    (inode_blocks n : ℕ) (s : Fs)
    → n / 128 + 1 < 2 ^ 32
    → IsConsistent inode_blocks s
    → (r : Bool) × (t : Fs) × (wremove n s ≡ ok r t)
      × IsConsistent inode_blocks t
      × RemovesInode inode_blocks n s r t
unfolding wremove inode_block
wremove-IsConsistent inode_blocks n s small c = elim (Bool-cases (s.disk.mounts == 0)) [
  | inl y ↦ (false, s, started true y, c, (inl (ground arith), refl, refl, refl))
  | inr y ↦ elim (Bool-cases (ltb inode_blocks (n / 128 + 1))) [
    | inl z ↦ (
      false,
      after_read s,
      started false y ∙ bounded true z,
      IsConsistent-after_read inode_blocks s c,
      (inr (inl (ground arith)), refl, refl, refl),
    )
    | inr z ↦
        let inside : n < inode_blocks * 128 = ground arith in
        elim (Bool-cases ((inode_at s.disk.image n).valid == 0)) [
          | inl w ↦ (
            false,
            after_read (after_read s),
            started false y ∙ bounded false z ∙ validated inside true w,
            IsConsistent-after_read inode_blocks (after_read s)
                (IsConsistent-after_read inode_blocks s c),
            (inr (inr (ap not w)), refl, refl, refl),
          )
          | inr w ↦ (
            true,
            removed s n,
            started false y
                ∙ bounded false z
                ∙ validated inside false w
                ∙ remove_inode-ok inode_blocks s n c inside,
            removed-IsConsistent inode_blocks s n c inside,
            (
              λ e. absurd (ground arith),
              inside,
              ap not w,
              inode_at-IsRewritten inode_blocks s (removed s n) n
                  (dropped (inode_at s.disk.image n))
                  (dropped-inode_at-IsInode inode_blocks s n c inside)
                  (removed-IsRewritten inode_blocks s n c inside),
              removed-AllCleared inode_blocks s n c inside,
              refl,
            ),
          )
        ]
  ]
]
  where
    started : (b : Bool) → (s.disk.mounts == 0) ≡ b → wremove n s ≡ by_mount n (n / 128 + 1) b s
    started b e =
        ap (λ at. by_mount n at (s.disk.mounts == 0) s) (inode_block_lem n small)
        ∙ ap (λ q. by_mount n (n / 128 + 1) q s) e

    bounded :
        (b : Bool)
        → ltb inode_blocks (n / 128 + 1) ≡ b
        → by_mount n (n / 128 + 1) false s ≡ by_bound n (n / 128 + 1) b (after_read s)
    bounded b e =
        and_then-ok _ (wread-ok 0 s c.usable (omega (arith, c.room)))
        ∙ ap (λ i. from_super n (n / 128 + 1) i (after_read s)) c.super
        ∙ ap (λ q. by_bound n (n / 128 + 1) q (after_read s)) e

    validated :
        n < inode_blocks * 128
        → (b : Bool) → ((inode_at s.disk.image n).valid == 0) ≡ b
        → by_bound n (n / 128 + 1) false (after_read s)
          ≡ by_valid n (n / 128 + 1) (s.disk.image (n / 128 + 1)) b (after_read (after_read s))
    validated l b e =
        and_then-ok _ (
          wread-ok (n / 128 + 1) (after_read s)
            (record { blocks_small = c.usable.blocks_small; no_error = c.usable.no_error })
            (omega (arith, c.room)))
        ∙ ap
            (λ q.
              by_valid n (n / 128 + 1) (s.disk.image (n / 128 + 1)) q (after_read (after_read s)))
            e
