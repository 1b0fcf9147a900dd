-- ===== src/Files/Tests/Isolated.antt =====
-- The disk of Stored with a write to its file.
use wpi_operating_systems.Base.{
  ℕ, zero, suc, ◌*◌, ◌/◌, ◌<◌, ◌≡◌, ◌≢◌, inl, inr, refl, sym, ◌∙◌, ap, subst, false, Bool-cases,
  Option, [], ◌∷◌, ◌==◌, if◌then◌else◌, arith,
}
use wpi_operating_systems.Files.Disk.{Fs, ok}
use wpi_operating_systems.Files.Mounting.Blank.{blank}
use wpi_operating_systems.Files.Operations.Consistent.{inode_at, inode_at-with_inode, is_valid}
use wpi_operating_systems.Files.Transfer.{wfswrite}
use wpi_operating_systems.Files.Transfer.Bytes.{pointer, file}
use wpi_operating_systems.Files.Transfer.Writable.{IsWritable}
use wpi_operating_systems.Files.Transfer.Disjoint.{direct_of, IsFileSystem}
use wpi_operating_systems.Files.Transfer.Isolated.{wfswrite-IsFileSystem}
use wpi_operating_systems.Files.Tests.Stored.{
  blank_image, blank_fs-blank, file_fs, sample, sample_at, sample-IsInode, sample-IsWritable,
  file_fs-IsConsistent, sized, mounted,
}

other_blank : (n : ℕ) → n < 2 * 128 → (n == 0) ≡ false → direct_of file_fs n ≡ blank.direct
other_blank n l y =
    ap (λ i. i.direct)
      (inode_at-with_inode blank_image 0 sample sample-IsInode n
        ∙ ap (λ b. if b then sample else inode_at blank_image n) y
        ∙ blank_fs-blank.1 n l)

zero_pointer : (i : ℕ) → pointer blank.direct i ≡ 0
zero_pointer zero = refl
zero_pointer (suc zero) = refl
zero_pointer (suc (suc zero)) = refl
zero_pointer (suc (suc (suc zero))) = refl
zero_pointer (suc (suc (suc (suc zero)))) = refl
zero_pointer (suc (suc (suc (suc (suc i))))) = refl

blank-IsWritable : IsWritable file_fs blank.direct
blank-IsWritable = record {
  usable = sample-IsWritable.usable;
  covers = sample-IsWritable.covers;
  bytes = sample-IsWritable.bytes;
  five = refl;
  data_block = λ i. inl (zero_pointer i);
  taken = λ i h. absurd (h (zero_pointer i));
  distinct = λ i j h e. absurd (h (zero_pointer i));
}

-- Only inode 0 has blocks.
with_blocks : (n i : ℕ) → n < 2 * 128 → pointer (direct_of file_fs n) i ≢ 0 → n ≡ 0
with_blocks n i l h = elim (Bool-cases (n == 0)) [
  | inl y ↦ ground arith
  | inr y ↦ absurd (h (ap (λ ds. pointer ds i) (other_blank n l y) ∙ zero_pointer i))
]

file_fs-IsFileSystem : IsFileSystem 2 file_fs
file_fs-IsFileSystem = record {
  consistent = file_fs-IsConsistent;
  sized = sized;
  mounted = mounted;
  writable = λ n l. elim (Bool-cases (n == 0)) [
    | inl y ↦
        let here : n ≡ 0 = ground arith in
        subst (λ k. IsWritable file_fs (direct_of file_fs k)) (sym here) sample-IsWritable
    | inr y ↦ subst (IsWritable file_fs) (sym (other_blank n l y)) blank-IsWritable
  ];
  disjoint = λ n m i j l k h e. with_blocks n i l h ∙ sym (with_blocks m j k (λ z. h (e ∙ z)));
}

wfswrite-IsFileSystem_example :
    (r : Option ℕ) × (t : Fs) × (wfswrite 0 (1 ∷ 2 ∷ []) 8191 file_fs ≡ ok r t)
    × IsFileSystem 2 t
    × ((m j : ℕ)
        → m < 2 * 128
        → m ≢ 0
        → pointer (direct_of file_fs m) (j / 4096) ≢ 0
        → file t.disk.image (direct_of t m) j ≡ file file_fs.disk.image (direct_of file_fs m) j)
wfswrite-IsFileSystem_example =
    wfswrite-IsFileSystem 2 0 8191 (1 ∷ 2 ∷ []) file_fs file_fs-IsFileSystem (omega arith)
      (ap is_valid sample_at) (omega arith)
