-- ===== src/Files/Transfer/RoundTrip.antt =====
-- What `wfswrite` stored is what `wfsread` returns.
use wpi_operating_systems.Base.{
  ℕ, suc, ◌+◌, ◌-◌, ◌*◌, ◌^◌, ◌≤◌, ◌<◌, ◌≡◌, ◌≢◌, ◌⊎◌, inl, inr, refl, sym, ◌∙◌, ap, true, none,
  some, List, [], ◌∷◌, ◌==◌, min, arith, length, get_or, if◌then◌else◌,
}
use wpi_operating_systems.Files.Disk.{Block, Fs, ok}
use wpi_operating_systems.Files.Disk.Usable.{with_disk}
use wpi_operating_systems.Files.Inodes.{Inode}
use wpi_operating_systems.Files.Bitmaps.{inode_blocks_of}
use wpi_operating_systems.Files.Operations.Consistent.{inode_at, IsConsistent, is_valid}
use wpi_operating_systems.Files.Transfer.{bytes_of, wfsread, wfswrite}
use wpi_operating_systems.Files.Transfer.Bytes.{file}
use wpi_operating_systems.Files.Transfer.Reads.{with_reads, wfsread-bytes_of}
use wpi_operating_systems.Files.Transfer.Writable.{IsWritable, IsFull}
use wpi_operating_systems.Files.Transfer.Rewrites.{grown, WroteFile, RefusedWrite}
use wpi_operating_systems.Files.Transfer.Stores.{wfswrite-WroteFile}

-- A block that has a list from a place on.
bytes_of-get_or :
    (xs : List ℕ) (b : Block) (o : ℕ)
    → ((j : ℕ) → o ≤ j → j < o + length xs → b j ≡ get_or xs (j - o) 0)
    → bytes_of (length xs) b o ≡ xs
unfolding bytes_of
bytes_of-get_or [] b o h = refl
bytes_of-get_or (x ∷ xs) b o h =
    let first : o - o ≡ 0 = omega arith in
    let rest : bytes_of (length xs) b (o + 1) ≡ xs = bytes_of-get_or xs b (o + 1) (λ j l m.
      let place : j - o ≡ suc (j - (o + 1)) = omega arith in
      h j (omega arith) (omega arith) ∙ ap (λ i. get_or (x ∷ xs) i 0) place) in
    ap (λ y. y ∷ bytes_of (length xs) b (o + 1))
      (h o (omega arith) (omega arith) ∙ ap (λ i. get_or (x ∷ xs) i 0) first)
    ∙ ap (λ ys. x ∷ ys) rest

-- On a mounted disk that is consistent, with as many inode blocks as its size gives and a bitmap that
-- has the blocks of the file, a write of bytes at an offset inside a file, or at its end, ends in one of
-- two ways, if the bytes lie in the direct blocks and the size stays below 2 ^ 32: all bytes are
-- written, and a read of as many bytes at the offset returns them; or no data block is free.
pub wfsread-wfswrite :
    (inode_blocks n offset : ℕ) (xs : List ℕ) (s : Fs)
    → IsConsistent inode_blocks s
    → inode_blocks ≡ inode_blocks_of s.disk.blocks
    → s.disk.mounts ≢ 0
    → n < inode_blocks * 128
    → is_valid (inode_at s.disk.image n) ≡ true
    → IsWritable s (inode_at s.disk.image n).direct
    → offset + length xs ≤ 20480
    → offset ≤ (inode_at s.disk.image n).size
    → (inode_at s.disk.image n).size + length xs < 2 ^ 32
    → (t : Fs) × (((wfswrite n xs offset s ≡ ok (some (length xs)) t)
          × (r : ℕ) × (wfsread n (length xs) offset t
              ≡ ok (some xs) (with_disk t (with_reads t.disk r))))
        ⊎ ((wfswrite n xs offset s ≡ ok none t) × IsFull t))
wfsread-wfswrite inode_blocks n offset xs s c sized mounted in_inodes valid w direct in_file small =
    let (t, ends) =
      wfswrite-WroteFile inode_blocks n offset xs s c sized mounted in_inodes valid w direct in
    (t, by_end t ends)
  where
    by_end :
        (t : Fs)
        → ((wfswrite n xs offset s ≡ ok (some (length xs)) t)
            × WroteFile inode_blocks n offset xs s t)
          ⊎ ((wfswrite n xs offset s ≡ ok none t) × RefusedWrite inode_blocks n s t)
        → ((wfswrite n xs offset s ≡ ok (some (length xs)) t)
            × (r : ℕ) × (wfsread n (length xs) offset t
                ≡ ok (some xs) (with_disk t (with_reads t.disk r))))
          ⊎ ((wfswrite n xs offset s ≡ ok none t) × IsFull t)
    by_end t (inr (run, refused)) = inr (run, refused.full)
    by_end t (inl (run, wrote)) =
        let old : Inode = inode_at s.disk.image n in
        let self : (n == n) ≡ true = ground arith in
        let new : inode_at t.disk.image n ≡ grown old wrote.direct (length xs) =
          wrote.inodes n in_inodes ∙ rw self refl in
        let size : (inode_at t.disk.image n).size ≡ old.size + length xs =
          ap (λ i. i.size) new ∙ omega arith in
        let count : min (length xs) ((inode_at t.disk.image n).size - offset) ≡ length xs =
          omega (arith, size) in
        let (r, read) =
          wfsread-bytes_of inode_blocks n (length xs) offset t wrote.consistent
            (λ e. mounted (sym wrote.mounts ∙ e)) in_inodes (omega (arith, size))
            (omega (arith, count)) in
        inl (
          run,
          r,
          read
              ∙ ap
                  (λ b.
                    ok
                      (if b
                        then some (
                            bytes_of (min (length xs) ((inode_at t.disk.image n).size - offset))
                              (file t.disk.image (inode_at t.disk.image n).direct) offset)
                        else none)
                      (with_disk t (with_reads t.disk r)))
                  (ap is_valid new ∙ valid)
              ∙ ap
                  (λ k.
                    ok
                      (some
                        (bytes_of k (file t.disk.image (inode_at t.disk.image n).direct) offset))
                      (with_disk t (with_reads t.disk r)))
                  count
              ∙ ap
                  (λ i.
                    ok (some (bytes_of (length xs) (file t.disk.image i.direct) offset))
                      (with_disk t (with_reads t.disk r)))
                  new
              ∙ ap (λ ys. ok (some ys) (with_disk t (with_reads t.disk r)))
                  (bytes_of-get_or xs (file t.disk.image wrote.direct) offset wrote.inside),
        )
