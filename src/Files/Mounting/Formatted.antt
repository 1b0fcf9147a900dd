-- ===== src/Files/Mounting/Formatted.antt =====
-- A disk that was formatted can be mounted.
use wpi_operating_systems.Base.{
  ℕ, zero, suc, ◌+◌, ◌-◌, ◌*◌, ◌/◌, ◌^◌, ◌≤◌, ◌<◌, ◌≡◌, refl, sym, subst, [], ◌∷◌, ◌⊎◌, inl, inr,
  ap, ◌∙◌, true, none, arith,
}
use wpi_operating_systems.Files.Disk.{
  Disk, Block, Fs, ok, ◌>>=◌, put_block, empty_block, and_then-ok,
}
use wpi_operating_systems.Files.Disk.Usable.{
  IsUsable, with_disk, counted, written, wread-ok, wwrite-ok,
}
use wpi_operating_systems.Files.Inodes.Slots
use wpi_operating_systems.Files.Inodes.{
  SuperBlock, word, read_super, write_super, read_super-write_super, read_inode,
}
use wpi_operating_systems.Files.Bitmaps.{inode_blocks_of}
use wpi_operating_systems.Files.Mounting.{
  success_good_mount, clear_blocks, super_of, write_format, format, fresh_bytes, scan_inodes,
  scan_blocks, create_bitmaps, count_mount, super_error, mount_super, read_mount, mount,
}

abbrev pub IsZero : Block → Type 0
IsZero b = (o : ℕ) → b o ≡ 0

-- The same disk, less what it counts and its image.
pub record SameShape (d e : Disk) : Type 0 where
  pub same_blocks : e.blocks ≡ d.blocks
  pub same_mounts : e.mounts ≡ d.mounts
  pub same_errors : (n : ℕ) → e.io_error n ≡ d.io_error n

pub IsUsable-SameShape : (d e : Disk) → SameShape d e → IsUsable d → IsUsable e
IsUsable-SameShape d e same v = record {
  blocks_small = let q = same.same_blocks in let l = v.blocks_small in omega arith;
  no_error = λ n. same.same_errors n ∙ v.no_error n;
}

SameShape-trans : (d e f : Disk) → SameShape d e → SameShape e f → SameShape d f
SameShape-trans d e f p q = record {
  same_blocks = q.same_blocks ∙ p.same_blocks;
  same_mounts = q.same_mounts ∙ p.same_mounts;
  same_errors = λ n. q.same_errors n ∙ p.same_errors n;
}

-- Blocks that are cleared hold zeros, and the blocks before them stay.
clear_blocks-ok :
    (n i : ℕ) (s : Fs)
    → IsUsable s.disk
    → i + n ≤ s.disk.blocks
    → (e : Disk) × (clear_blocks n i s ≡ ok tt (with_disk s e))
      × SameShape s.disk e
      × ((k : ℕ) → k < i → e.image k ≡ s.disk.image k)
      × ((k : ℕ) → i ≤ k → k < i + n → IsZero (e.image k))
unfolding clear_blocks
clear_blocks-ok zero i s v h = (
  s.disk,
  refl,
  record { same_blocks = refl; same_mounts = refl; same_errors = λ n. refl },
  (λ k l. refl),
  λ k l m. absurd (omega arith),
)
clear_blocks-ok (suc n) i s v h =
    let d : Disk = written s.disk i empty_block in
    let same : SameShape s.disk d = record {
      same_blocks = refl;
      same_mounts = refl;
      same_errors = λ n. refl;
    } in
    let (e, run, same', below, zeros) =
      clear_blocks-ok n (i + 1) (with_disk s d) (IsUsable-SameShape s.disk d same v)
        (omega arith) in
    (
      e,
      rw (wwrite-ok i empty_block s v (omega arith)) run,
      SameShape-trans s.disk d e same same',
      (λ k l. below k (omega arith) ∙ unfold put_block in ground arith),
      λ k l m o. elim (le_cases i k l) [
        | inl q ↦ ap (λ b. b o) (below k (omega arith)) ∙ unfold put_block in ground arith
        | inr q ↦ zeros k q (omega arith) o
      ],
    )
  where
    le_cases : (i k : ℕ) → i ≤ k → (k ≡ i) ⊎ (i + 1 ≤ k)
    le_cases i k l = omega arith

-- No inode of a block of zeros is valid.
scan_inodes_zero : (b : Block) (i n j : ℕ) (s : Fs) → IsZero b → scan_inodes b i n j s ≡ ok tt s
unfolding scan_inodes
scan_inodes_zero b i zero j s z = refl
scan_inodes_zero b i (suc n) j s z =
    let none_valid : (read_inode b j).valid ≡ 0 =
      unfold read_inode word in
      rw (z (j * 32), z (j * 32 + 1), z (j * 32 + 2), z (j * 32 + 3)) (omega arith) in
    rw none_valid (scan_inodes_zero b i n (j + 1) s z)

scan_blocks_zero :
    (n i : ℕ) (s : Fs)
    → IsUsable s.disk
    → i + n < s.disk.blocks
    → ((k : ℕ) → i + 1 ≤ k → k < i + 1 + n → IsZero (s.disk.image k))
    → (e : Disk) × (scan_blocks n i s ≡ ok tt (with_disk s e))
      × SameShape s.disk e
      × (e.image ≡ s.disk.image)
unfolding scan_blocks
scan_blocks_zero zero i s v h zeros =
    (s.disk, refl, record { same_blocks = refl; same_mounts = refl; same_errors = λ n. refl }, refl)
scan_blocks_zero (suc n) i s v h zeros =
    let d : Disk = counted s.disk in
    let same : SameShape s.disk d = record {
      same_blocks = refl;
      same_mounts = refl;
      same_errors = λ n. refl;
    } in
    let (e, run, same', image) =
      scan_blocks_zero n (i + 1) (with_disk s d) (IsUsable-SameShape s.disk d same v) (omega arith)
        (λ k l m. zeros k (omega arith) (omega arith)) in
    (
      e,
      and_then-ok _ (wread-ok (i + 1) s v (omega arith))
          ∙ and_then-ok _ (
              scan_inodes_zero (s.disk.image (i + 1)) i 128 0 (with_disk s d)
                (zeros (i + 1) (omega arith) (omega arith)))
          ∙ run,
      SameShape-trans s.disk d e same same',
      image,
    )

-- The bitmaps as malloc returns them.
abbrev pub bitmaps_for : (ℕ → ℕ) → ℕ → Fs → Fs
bitmaps_for junk blocks s = record s {
  i_bitmap = fresh_bytes junk (inode_blocks_of blocks * 16) 0;
  d_bitmap =
      fresh_bytes junk ((blocks - inode_blocks_of blocks - 1 + 7) / 8)
        (inode_blocks_of blocks * 16);
}

abbrev pub fresh_bitmaps : (ℕ → ℕ) → Fs → Fs
fresh_bitmaps junk s = bitmaps_for junk s.disk.blocks s

pub inode_blocks_of-lt : (n : ℕ) → 1 < n → inode_blocks_of n < n
unfolding inode_blocks_of
inode_blocks_of-lt n h = omega arith

inode_blocks_of_small : (n : ℕ) → n ≤ 2 ^ 19 → 128 * inode_blocks_of n < 2 ^ 32
unfolding inode_blocks_of
inode_blocks_of_small n h = omega arith

super_of-read :
    (n : ℕ) → n ≤ 2 ^ 19 → read_super (write_super empty_block (super_of n)) ≡ super_of n
unfolding super_of
super_of-read n h =
    let small = inode_blocks_of_small n h in
    read_super-write_super empty_block _ (omega arith) (omega arith) (omega arith) (omega arith)

super_error-super_of : (n : ℕ) → super_error (super_of n) n ≡ none
unfolding super_error super_of
super_error-super_of n = ground arith

-- What `format` leaves on a disk.
pub record IsFormatted (d : Disk) : Type 0 where
  pub bytes : Slots.AllBytes (d.image 0)
  pub super : read_super (d.image 0) ≡ super_of d.blocks
  pub zeros : (k : ℕ) → 1 ≤ k → k < d.blocks → IsZero (d.image k)

pub write_super-AllBytes : (u : SuperBlock) → Slots.AllBytes (write_super empty_block u)
unfolding write_super
write_super-AllBytes u =
    Slots.set_words-AllBytes empty_block 0
      (u.magic_number ∷ u.blocks ∷ u.inode_blocks ∷ u.inodes ∷ []) (λ o. omega arith)

format_unmounted : (s : Fs) → s.disk.mounts ≡ 0 → format s ≡ write_format s
unfolding format
format_unmounted s e = rw e refl

mount_unmounted : (junk : ℕ → ℕ) (s : Fs) → s.disk.mounts ≡ 0 → mount junk s ≡ read_mount junk s
unfolding mount
mount_unmounted junk s e = rw e refl

pub format-ok :
    (s : Fs)
    → IsUsable s.disk
    → 1 < s.disk.blocks
    → s.disk.mounts ≡ 0
    → (e : Disk) × (format s ≡ ok true (with_disk s e)) × SameShape s.disk e × IsFormatted e
unfolding write_format
format-ok s v some_blocks unmounted =
    let b : Block = write_super empty_block (super_of s.disk.blocks) in
    let d : Disk = written s.disk 0 b in
    let same : SameShape s.disk d = record {
      same_blocks = refl;
      same_mounts = refl;
      same_errors = λ n. refl;
    } in
    let (e, run, same', below, zeros) =
      clear_blocks-ok (s.disk.blocks - 1) 1 (with_disk s d) (IsUsable-SameShape s.disk d same v)
        (omega arith) in
    let image : e.image 0 ≡ b = below 0 (omega arith) ∙ unfold put_block in refl in
    (
      e,
      format_unmounted s unmounted
          ∙ and_then-ok _ (wwrite-ok 0 b s v (omega arith))
          ∙ and_then-ok _ run,
      SameShape-trans s.disk d e same same',
      record {
        bytes = subst Slots.AllBytes (sym image) (write_super-AllBytes (super_of s.disk.blocks));
        super =
            ap read_super image
            ∙ super_of-read s.disk.blocks v.blocks_small
            ∙ ap super_of (sym same'.same_blocks);
        zeros = λ k l m. zeros k l (let q = same'.same_blocks in omega arith);
      },
    )

mount-ok :
    (junk : ℕ → ℕ) (s : Fs)
    → IsUsable s.disk
    → 1 < s.disk.blocks
    → s.disk.mounts ≡ 0
    → IsFormatted s.disk
    → (e : Disk) × (mount junk s ≡ ok success_good_mount (with_disk (fresh_bitmaps junk s) e))
      × (e.mounts ≡ 1)
      × (e.blocks ≡ s.disk.blocks)
      × IsUsable e
      × IsFormatted e
unfolding read_mount mount_super create_bitmaps count_mount super_of
mount-ok junk s v some_blocks unmounted f =
    let n : ℕ = s.disk.blocks in
    let d : Disk = counted s.disk in
    let same : SameShape s.disk d = record {
      same_blocks = refl;
      same_mounts = refl;
      same_errors = λ n. refl;
    } in
    let less : inode_blocks_of n < n = inode_blocks_of-lt n some_blocks in
    let s' : Fs = fresh_bitmaps junk (with_disk s d) in
    let (e, run, same', image) =
      scan_blocks_zero (inode_blocks_of n) 0 s' (IsUsable-SameShape s.disk d same v) (omega arith)
        (λ k l m. f.zeros k (omega arith) (omega arith)) in
    let checked : mount_super junk (super_error (read_super (s.disk.image 0)) n)
          (read_super (s.disk.image 0)) (with_disk s d)
        ≡ mount_super junk none (super_of n) (with_disk s d) =
      ap (λ t. mount_super junk (super_error t n) t (with_disk s d)) f.super
      ∙ ap (λ t. mount_super junk t (super_of n) (with_disk s d)) (super_error-super_of n) in
    (
      record e { mounts = e.mounts + 1 },
      mount_unmounted junk s unmounted
          ∙ and_then-ok _ (wread-ok 0 s v (omega arith))
          ∙ checked
          ∙ and_then-ok _ run,
      ap (λ k. k + 1) (same'.same_mounts ∙ unmounted),
      same'.same_blocks,
      (let u = IsUsable-SameShape d e same' (IsUsable-SameShape s.disk d same v) in
          record { blocks_small = u.blocks_small; no_error = u.no_error }),
      record {
        bytes = subst Slots.AllBytes (ap (λ i. i 0) (sym image)) f.bytes;
        super = ap (λ i. read_super (i 0)) image ∙ f.super ∙ ap super_of (sym same'.same_blocks);
        zeros = λ k l m o.
            ap (λ i. i k o) image ∙ f.zeros k l (let q = same'.same_blocks in omega arith) o;
      },
    )

-- On a disk of 2 to 2 ^ 19 blocks that is not mounted and whose transfers succeed, `format`
-- succeeds and `mount` after it does too: the disk is mounted once, holds the super block and zeros
-- behind it, and the bitmaps are as malloc returned them, since no inode is valid.
pub mount-format :
    (junk : ℕ → ℕ) (s : Fs)
    → IsUsable s.disk
    → 1 < s.disk.blocks
    → s.disk.mounts ≡ 0
    → (e : Disk) × ((format >>= λ done. mount junk) s
        ≡ ok success_good_mount (with_disk (fresh_bitmaps junk s) e))
      × (e.mounts ≡ 1)
      × (e.blocks ≡ s.disk.blocks)
      × IsUsable e
      × IsFormatted e
mount-format junk s v some_blocks unmounted =
    let (d, run, same, formatted) = format-ok s v some_blocks unmounted in
    let q = same.same_blocks in
    let (e, run', once, blocks, usable, formatted') =
      mount-ok junk (with_disk s d) (IsUsable-SameShape s.disk d same v) (omega arith)
        (same.same_mounts ∙ unmounted) formatted in
    (
      e,
      and_then-ok _ run
          ∙ run'
          ∙ ap (λ n. ok success_good_mount (with_disk (bitmaps_for junk n s) e)) q,
      once,
      blocks ∙ q,
      usable,
      formatted',
    )
