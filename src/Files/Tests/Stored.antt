-- ===== src/Files/Tests/Stored.antt =====
-- A mounted disk of 20 blocks with one file, of two blocks.
use wpi_operating_systems.Base.{
  ℕ, zero, suc, ◌+◌, ◌-◌, ◌*◌, ◌^◌, ◌≤◌, ◌<◌, ◌≡◌, ◌≢◌, ◌⊎◌, inl, inr, refl, sym, ◌∙◌, ap, subst,
  Bool, true, false, Option, none, some, [], ◌∷◌, min, replicate, arith, if◌then◌else◌, ℤ,
}
use wpi_operating_systems.Files.Disk.{Block, Disk, Fs, ok, ◌>>=◌, empty_block, put_block}
use wpi_operating_systems.Files.Disk.Usable.{with_disk}
use wpi_operating_systems.Files.Inodes.{
  SuperBlock, Inode, write_super, read_super, read_inode, write_inode, words, word, set_words,
  set_word,
}
use wpi_operating_systems.Files.Inodes.Slots.{IsInode}
use wpi_operating_systems.Files.Bitmaps.{inode_blocks_of, test_bit, set_bit}
use wpi_operating_systems.Files.Bitmaps.FreeBlocks.{data_index}
use wpi_operating_systems.Files.Bitmaps.Bits.{bit_of, with_bit-AllBytes, bit_of-with_bit}
use wpi_operating_systems.Files.Mounting.{success_good_mount, format, mount}
use wpi_operating_systems.Files.Mounting.Formatted.{write_super-AllBytes}
use wpi_operating_systems.Files.Mounting.Blank.{
  blank, AllZero, AllZero-IsConsistent, mount-IsConsistent,
}
use wpi_operating_systems.Files.Operations.{create, wremove}
use wpi_operating_systems.Files.Operations.Consistent.{
  inode_at, IsConsistent, with_inode, is_valid, IsRewritten-IsConsistent,
}
use wpi_operating_systems.Files.Operations.Create.{CreatesInode, create-IsConsistent}
use wpi_operating_systems.Files.Operations.Remove.{RemovesInode, wremove-IsConsistent}
use wpi_operating_systems.Files.Transfer.{bytes_of, wfsread, wfswrite}
use wpi_operating_systems.Files.Transfer.Bytes.{pointer, file}
use wpi_operating_systems.Files.Transfer.Reads.{with_reads, wfsread-bytes_of}
use wpi_operating_systems.Files.Transfer.Writable.{IsWritable, IsFull}
use wpi_operating_systems.Files.Transfer.Rewrites.{WroteFile, RefusedWrite}
use wpi_operating_systems.Files.Transfer.Stores.{wfswrite-WroteFile}
use wpi_operating_systems.Files.Transfer.RoundTrip.{wfsread-wfswrite}

abbrev super_block : SuperBlock
super_block = record { magic_number = 7; blocks = 20; inode_blocks = 2; inodes = 256 }

abbrev pub blank_image : ℕ → Block
blank_image zero = write_super empty_block super_block
blank_image (suc n) = empty_block

abbrev blank_disk : Disk
blank_disk = record {
  blocks = 20;
  reads = 0;
  writes = 0;
  mounts = 1;
  image = blank_image;
  io_error = λ n. none;
}

abbrev pub blank_fs : Fs
blank_fs = record { disk = blank_disk; i_bitmap = replicate 32 0; d_bitmap = 3 ∷ 0 ∷ 0 ∷ [] }

pub blank_fs-blank :
    IsConsistent 2 blank_fs × ((n : ℕ) → n < 2 * 128 → inode_at blank_fs.disk.image n ≡ blank)
blank_fs-blank =
    AllZero-IsConsistent 2 blank_fs (record { blocks_small = omega arith; no_error = λ n. refl })
      (unfold read_super write_super set_words set_word word in refl) (omega arith)
      (write_super-AllBytes super_block) zeros refl (replicate-AllZero 32)
  where
    zeros : (k : ℕ) → 1 ≤ k → k ≤ 2 → (o : ℕ) → blank_image k o ≡ 0
    zeros zero l h o = absurd (omega arith)
    zeros (suc k) l h o = refl

    replicate-AllZero : (n : ℕ) → AllZero (replicate n 0)
    replicate-AllZero zero = tt
    replicate-AllZero (suc n) = (refl, replicate-AllZero n)

blank_fs-IsConsistent : IsConsistent 2 blank_fs
blank_fs-IsConsistent = blank_fs-blank.0

-- The file of inode 0: 5000 bytes in the blocks 3 and 4.
abbrev pub sample : Inode
sample = record { valid = 1; size = 5000; direct = 3 ∷ 4 ∷ 0 ∷ 0 ∷ 0 ∷ []; indirect = 0 }

abbrev pub file_fs : Fs
file_fs = record {
  disk = record blank_disk { image = with_inode blank_image 0 sample };
  i_bitmap = 1 ∷ replicate 31 0;
  d_bitmap = 3 ∷ 0 ∷ 0 ∷ [];
}

pub sample_at : inode_at file_fs.disk.image 0 ≡ sample
unfolding read_inode put_block write_inode words set_words set_word word
sample_at = refl

pub sample-IsInode : IsInode sample
sample-IsInode = record {
  pointers = refl;
  fits = (
    omega arith,
    (
      omega arith,
      (omega arith, (omega arith, (omega arith, (omega arith, (omega arith, (omega arith, tt)))))),
    ),
  );
}

pub file_fs-IsConsistent : IsConsistent 2 file_fs
unfolding set_bit test_bit
file_fs-IsConsistent =
    IsRewritten-IsConsistent 2 blank_fs file_fs 0 sample sample-IsInode
      (record {
        usable = record { blocks_small = omega arith; no_error = λ n. refl };
        blocks = refl;
        image = λ k l. refl;
        covers = refl;
        bytes = with_bit-AllBytes (replicate 32 0) 0 blank_fs-IsConsistent.bitmap_bytes;
        bits = λ m.
            bit_of-with_bit (replicate 32 0) 0 m blank_fs-IsConsistent.bitmap_bytes (omega arith);
      })
      blank_fs-IsConsistent (omega arith)
      (
        inr (omega arith, omega arith),
        (inr (omega arith, omega arith), (inl refl, (inl refl, (inl refl, tt)))),
      )
      refl

pub sized : 2 ≡ inode_blocks_of 20
unfolding inode_blocks_of
sized = refl

pub mounted : file_fs.disk.mounts ≢ 0
mounted e = omega arith

pub sample-IsWritable : IsWritable file_fs (inode_at file_fs.disk.image 0).direct
sample-IsWritable =
    subst (λ i. IsWritable file_fs i.direct) (sym sample_at)
      (record {
        usable = record { blocks_small = omega arith; no_error = λ n. refl };
        covers = unfold inode_blocks_of in omega arith;
        bytes = (omega arith, (omega arith, (omega arith, tt)));
        five = refl;
        data_block = data_block;
        taken = taken;
        distinct = distinct;
      })
  where
    data_block :
        (i : ℕ)
        → (pointer sample.direct i ≡ 0)
          ⊎ ((inode_blocks_of 20 < pointer sample.direct i) × (pointer sample.direct i < 20))
    data_block zero = inr (unfold inode_blocks_of in omega arith, omega arith)
    data_block (suc zero) = inr (unfold inode_blocks_of in omega arith, omega arith)
    data_block (suc (suc zero)) = inl refl
    data_block (suc (suc (suc zero))) = inl refl
    data_block (suc (suc (suc (suc zero)))) = inl refl
    data_block (suc (suc (suc (suc (suc i))))) = inl refl

    taken :
        (i : ℕ)
        → pointer sample.direct i ≢ 0
        → bit_of file_fs.d_bitmap (data_index 20 (pointer sample.direct i)) ≡ true
    taken zero h = unfold inode_blocks_of test_bit in refl
    taken (suc zero) h = unfold inode_blocks_of test_bit in refl
    taken (suc (suc zero)) h = absurd (h refl)
    taken (suc (suc (suc zero))) h = absurd (h refl)
    taken (suc (suc (suc (suc zero)))) h = absurd (h refl)
    taken (suc (suc (suc (suc (suc i))))) h = absurd (h refl)

    value : (i : ℕ) → pointer sample.direct i ≢ 0 → pointer sample.direct i ≡ 3 + i
    value zero h = refl
    value (suc zero) h = refl
    value (suc (suc zero)) h = absurd (h refl)
    value (suc (suc (suc zero))) h = absurd (h refl)
    value (suc (suc (suc (suc zero)))) h = absurd (h refl)
    value (suc (suc (suc (suc (suc i))))) h = absurd (h refl)

    distinct :
        (i j : ℕ)
        → pointer sample.direct i ≢ 0
        → pointer sample.direct i ≡ pointer sample.direct j
        → i ≡ j
    distinct i j h e =
        let a : pointer sample.direct i ≡ 3 + i = value i h in
        let b : pointer sample.direct j ≡ 3 + j = value j (λ z. h (e ∙ z)) in
        let same : 3 + i ≡ 3 + j = sym a ∙ e ∙ b in omega arith

size_lem : (P : ℕ → Type 0) → P 5000 → P (inode_at file_fs.disk.image 0).size
size_lem P h = subst P (ap (λ i. i.size) (sym sample_at)) h

mount-IsConsistent_example :
    (t : Fs) × ((format >>= λ done. mount (λ i. 0))
        (record file_fs { disk = record file_fs.disk { mounts = 0 } })
      ≡ ok success_good_mount t)
    × IsConsistent (inode_blocks_of 20) t
    × (t.disk.mounts ≡ 1)
    × (t.disk.blocks ≡ 20)
    × ((n : ℕ) → n < inode_blocks_of 20 * 128 → inode_at t.disk.image n ≡ blank)
    × ((k : ℕ) → bit_of t.d_bitmap k ≡ false)
mount-IsConsistent_example =
    mount-IsConsistent (λ i. 0) (record file_fs { disk = record file_fs.disk { mounts = 0 } })
      (λ k. refl) (record { blocks_small = omega arith; no_error = λ n. refl }) (omega arith) refl

create-IsConsistent_example :
    (r : ℤ) × (t : Fs) × (o : Option ℕ) × (create file_fs ≡ ok r t)
    × IsConsistent 2 t
    × CreatesInode 2 file_fs r t o
create-IsConsistent_example = create-IsConsistent 2 file_fs file_fs-IsConsistent

wremove-IsConsistent_example :
    (r : Bool) × (t : Fs) × (wremove 0 file_fs ≡ ok r t)
    × IsConsistent 2 t
    × RemovesInode 2 0 file_fs r t
wremove-IsConsistent_example = wremove-IsConsistent 2 0 file_fs (omega arith) file_fs-IsConsistent

wfsread-bytes_of_example :
    (r : ℕ) × (wfsread 0 4 4094 file_fs
      ≡ ok
          (if is_valid (inode_at file_fs.disk.image 0)
            then some (
                bytes_of
                  (min 4 ((inode_at file_fs.disk.image 0).size - 4094))
                  (file file_fs.disk.image (inode_at file_fs.disk.image 0).direct)
                  4094)
            else none)
          (with_disk file_fs (with_reads file_fs.disk r)))
wfsread-bytes_of_example =
    wfsread-bytes_of 2 0 4 4094 file_fs file_fs-IsConsistent mounted (omega arith)
      (size_lem (λ z. 4094 ≤ z) (omega arith))
      (size_lem (λ z. 4094 + min 4 (z - 4094) ≤ 20480) (omega arith))

-- Four bytes over the end of the first block.
wfswrite-WroteFile_example :
    (t : Fs) × (((wfswrite 0 (1 ∷ 2 ∷ 3 ∷ 4 ∷ []) 4094 file_fs ≡ ok (some 4) t)
        × WroteFile 2 0 4094 (1 ∷ 2 ∷ 3 ∷ 4 ∷ []) file_fs t)
      ⊎ ((wfswrite 0 (1 ∷ 2 ∷ 3 ∷ 4 ∷ []) 4094 file_fs ≡ ok none t) × RefusedWrite 2 0 file_fs t))
wfswrite-WroteFile_example =
    wfswrite-WroteFile 2 0 4094 (1 ∷ 2 ∷ 3 ∷ 4 ∷ []) file_fs file_fs-IsConsistent sized mounted
      (omega arith) (ap is_valid sample_at) sample-IsWritable (omega arith)

wfsread-wfswrite_example :
    (t : Fs) × (((wfswrite 0 (1 ∷ 2 ∷ 3 ∷ 4 ∷ []) 4094 file_fs ≡ ok (some 4) t)
        × (r : ℕ) × (wfsread 0 4 4094 t
            ≡ ok (some (1 ∷ 2 ∷ 3 ∷ 4 ∷ [])) (with_disk t (with_reads t.disk r))))
      ⊎ ((wfswrite 0 (1 ∷ 2 ∷ 3 ∷ 4 ∷ []) 4094 file_fs ≡ ok none t) × IsFull t))
wfsread-wfswrite_example =
    wfsread-wfswrite 2 0 4094 (1 ∷ 2 ∷ 3 ∷ 4 ∷ []) file_fs file_fs-IsConsistent sized mounted
      (omega arith) (ap is_valid sample_at) sample-IsWritable (omega arith)
      (size_lem (λ z. 4094 ≤ z) (omega arith)) (size_lem (λ z. z + 4 < 2 ^ 32) (omega arith))
