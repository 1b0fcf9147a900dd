-- ===== src/Files/Transfer/Isolated.antt =====
-- A write to one file leaves the others.
use wpi_operating_systems.Base.{
  ℕ, ◌+◌, ◌*◌, ◌/◌, ◌≤◌, ◌<◌, ◌≡◌, ◌≢◌, ◌⊎◌, inl, inr, sym, ◌∙◌, ap, subst, true, false, Option,
  none, some, List, ◌==◌, if◌then◌else◌, arith, length,
}
use wpi_operating_systems.Files.Disk.{Fs, ok}
use wpi_operating_systems.Files.Operations.Consistent.{inode_at, is_valid}
use wpi_operating_systems.Files.Transfer.{wfswrite}
use wpi_operating_systems.Files.Transfer.Bytes.{pointer, file}
use wpi_operating_systems.Files.Transfer.Writable.{IsWritable}
use wpi_operating_systems.Files.Transfer.Rewrites.{grown, WroteFile, RefusedWrite}
use wpi_operating_systems.Files.Transfer.Stores.{wfswrite-WroteFile}
use wpi_operating_systems.Files.Transfer.Disjoint.{
  direct_of, IsFileSystem, IsWritable-Extends, extended-IsFileSystem, other_files,
}

-- On a mounted disk that is consistent, and on which no two files have a block in common, a write of
-- bytes that lie in the direct blocks of a valid inode ends, also where no data block is free for all
-- of them: no two files have a block in common then, and the bytes in the blocks of all other files
-- are as before.
pub wfswrite-IsFileSystem :
    (inode_blocks n offset : ℕ) (xs : List ℕ) (s : Fs)
    → IsFileSystem inode_blocks s
    → n < inode_blocks * 128
    → is_valid (inode_at s.disk.image n) ≡ true
    → offset + length xs ≤ 20480
    → (r : Option ℕ) × (t : Fs) × (wfswrite n xs offset s ≡ ok r t)
      × IsFileSystem inode_blocks t
      × ((m j : ℕ)
          → m < inode_blocks * 128
          → m ≢ n
          → pointer (direct_of s m) (j / 4096) ≢ 0
          → file t.disk.image (direct_of t m) j ≡ file s.disk.image (direct_of s m) j)
wfswrite-IsFileSystem inode_blocks n offset xs s f in_inodes valid direct =
    let (t, ends) =
      wfswrite-WroteFile inode_blocks n offset xs s f.consistent f.sized f.mounted in_inodes valid
        (f.writable n in_inodes) direct in
    by_end t ends
  where
    by_end :
        (t : Fs)
        → ((wfswrite n xs offset s ≡ ok (some (length xs)) t)
            × WroteFile inode_blocks n offset xs s t)
          ⊎ ((wfswrite n xs offset s ≡ ok none t) × RefusedWrite inode_blocks n s t)
        → (r : Option ℕ) × (t : Fs) × (wfswrite n xs offset s ≡ ok r t)
          × IsFileSystem inode_blocks t
          × ((m j : ℕ)
              → m < inode_blocks * 128
              → m ≢ n
              → pointer (direct_of s m) (j / 4096) ≢ 0
              → file t.disk.image (direct_of t m) j ≡ file s.disk.image (direct_of s m) j)
    by_end t (inl (run, w)) =
        let self : (n == n) ≡ true = ground arith in
        let new : direct_of t n ≡ w.direct =
          ap (λ i. i.direct) (w.inodes n in_inodes)
          ∙ ap
              (λ b.
                (if b
                  then grown (inode_at s.disk.image n) w.direct (length xs)
                  else inode_at s.disk.image n).direct)
              self in
        let same : (m : ℕ) → m < inode_blocks * 128 → m ≢ n → direct_of t m ≡ direct_of s m =
          λ m l ne.
            let differs : (m == n) ≡ false = ground arith in
            ap (λ i. i.direct) (w.inodes m l)
            ∙ ap
                (λ b.
                  (if b
                    then grown (inode_at s.disk.image n) w.direct (length xs)
                    else inode_at s.disk.image m).direct)
                differs in
        let own : IsWritable t (direct_of t n) = subst (IsWritable t) (sym new) w.writable in
        let in_file : (i : ℕ)
            → pointer (direct_of t n) i ≢ 0
            → pointer w.direct i ≡ pointer (direct_of t n) i =
          λ i h. ap (λ ds. pointer ds i) (sym new) in
        (
          some (length xs),
          t,
          run,
          extended-IsFileSystem inode_blocks n s t w.direct f in_inodes w.extends w.blocks
              w.writable w.consistent w.mounts own in_file same,
          other_files inode_blocks n s t w.direct f in_inodes w.extends w.blocks w.writable
              w.consistent w.mounts own in_file same w.others,
        )
    by_end t (inr (run, w)) =
        let old : direct_of t n ≡ direct_of s n = ap (λ i. i.direct) (w.inodes n in_inodes) in
        let same : (m : ℕ) → m < inode_blocks * 128 → m ≢ n → direct_of t m ≡ direct_of s m =
          λ m l ne. ap (λ i. i.direct) (w.inodes m l) in
        let own : IsWritable t (direct_of t n) = subst (IsWritable t) (sym old) (
          IsWritable-Extends s t (direct_of s n) w.direct (direct_of s n) w.blocks w.extends
            w.writable (f.writable n in_inodes)) in
        let in_file : (i : ℕ)
            → pointer (direct_of t n) i ≢ 0
            → pointer w.direct i ≡ pointer (direct_of t n) i =
          λ i h.
            let at = ap (λ ds. pointer ds i) old in w.extends.kept i (λ z. h (at ∙ z)) ∙ sym at in
        (
          none,
          t,
          run,
          extended-IsFileSystem inode_blocks n s t w.direct f in_inodes w.extends w.blocks
              w.writable w.consistent w.mounts own in_file same,
          other_files inode_blocks n s t w.direct f in_inodes w.extends w.blocks w.writable
              w.consistent w.mounts own in_file same w.others,
        )
