-- ===== src/Files/Bitmaps/FreeBlocks.antt =====
-- The first data block that is free, and taking it.
use wpi_operating_systems.Base.{
  ℕ, zero, suc, ◌+◌, ◌-◌, ◌*◌, ◌/◌, ◌≤◌, ◌<◌, ◌≡◌, ◌⊎◌, inl, inr, refl, ◌∙◌, ap, subst, Bool, true,
  false, Bool-cases, Option, none, some, List, ltb, arith, length, if◌then◌else◌,
}
use wpi_operating_systems.Files.Disk.{Fs, Run, ok, and_then-ok}
use wpi_operating_systems.Files.Bitmaps.{
  inode_blocks_of, set_d_byte, update_dbitmap, find_in_data, find_free_dblock,
}
use wpi_operating_systems.Files.Bitmaps.Bits.{bit_of, with_bit}
use wpi_operating_systems.Files.Bitmaps.Free.{byte_at-ok, get_elem?-get_or}

-- The first clear bit of a bitmap from `lo` on and before `hi`, as a block behind `inode_blocks`.
abbrev pub IsFirstClear : List ℕ → ℕ → ℕ → ℕ → Option ℕ → Type 0
IsFirstClear bitmap inode_blocks lo hi none = (k : ℕ) → lo ≤ k → k < hi → bit_of bitmap k ≡ true
IsFirstClear bitmap inode_blocks lo hi (some q) =
    (inode_blocks + 1 + lo ≤ q)
    × (q < inode_blocks + 1 + hi)
    × (bit_of bitmap (q - inode_blocks - 1) ≡ false)
    × ((k : ℕ) → lo ≤ k → inode_blocks + 1 + k < q → bit_of bitmap k ≡ true)

-- A bit that is set before those of the search.
IsFirstClear-extend :
    (bitmap : List ℕ) (inode_blocks lo hi : ℕ) (o : Option ℕ)
    → bit_of bitmap lo ≡ true
    → IsFirstClear bitmap inode_blocks (lo + 1) hi o
    → IsFirstClear bitmap inode_blocks lo hi o
IsFirstClear-extend bitmap inode_blocks lo hi none e all =
    λ k l h. elim (split k l) [ inl same ↦ ap (bit_of bitmap) same ∙ e | inr more ↦ all k more h ]
  where
    split : (k : ℕ) → lo ≤ k → (k ≡ lo) ⊎ (lo + 1 ≤ k)
    split k l = omega arith
IsFirstClear-extend bitmap inode_blocks lo hi (some q) e (l, h, free, before) = (
  omega arith,
  h,
  free,
  λ k m n. elim (split k m) [ inl same ↦ ap (bit_of bitmap) same ∙ e | inr more ↦ before k more n ],
)
  where
    split : (k : ℕ) → lo ≤ k → (k ≡ lo) ⊎ (lo + 1 ≤ k)
    split k l = omega arith

find_in_data-IsFirstClear :
    (inode_blocks n i : ℕ) (s : Fs)
    → i + n ≤ 8 * length s.d_bitmap
    → (o : Option ℕ) × (find_in_data inode_blocks n i s ≡ ok o s)
      × IsFirstClear s.d_bitmap inode_blocks i (i + n) o
unfolding find_in_data
find_in_data-IsFirstClear inode_blocks zero i s h = (none, refl, λ k l m. absurd (omega arith))
find_in_data-IsFirstClear inode_blocks (suc n) i s h =
    let (o, run, first) = find_in_data-IsFirstClear inode_blocks n (i + 1) s (omega arith) in
    elim (Bool-cases (bit_of s.d_bitmap i)) [
      | inl y ↦ (
        o,
        found ∙ ap (λ b. by_bit b) y ∙ run,
        IsFirstClear-extend s.d_bitmap inode_blocks i (i + suc n) o y (bound o first),
      )
      | inr y ↦ (
        some (i + inode_blocks + 1),
        found ∙ ap (λ b. by_bit b) y,
        (omega arith, omega arith, ap (bit_of s.d_bitmap) place ∙ y, λ k l m. absurd (omega arith)),
      )
    ]
  where
    place : i + inode_blocks + 1 - inode_blocks - 1 ≡ i
    place = omega arith

    by_bit : Bool → Run (Option ℕ)
    by_bit b =
        if b then find_in_data inode_blocks n (i + 1) s else ok (some (i + inode_blocks + 1)) s

    found : find_in_data inode_blocks (suc n) i s ≡ by_bit (bit_of s.d_bitmap i)
    found = rw (find_in_data, get_elem?-get_or s.d_bitmap (i / 8) (omega arith)) refl

    bound :
        (o : Option ℕ)
        → IsFirstClear s.d_bitmap inode_blocks (i + 1) (i + 1 + n) o
        → IsFirstClear s.d_bitmap inode_blocks (i + 1) (i + suc n) o
    bound none all = λ k l m. all k l (omega arith)
    bound (some q) (l, h, free, before) = (l, omega arith, free, before)

-- the data blocks of a disk of `n` blocks
abbrev pub data_blocks : ℕ → ℕ
data_blocks n = n - inode_blocks_of n - 1

-- `find_free_dblock` finds the first data block whose bit is clear, if one is.
pub find_free_dblock-IsFirstClear :
    (s : Fs)
    → data_blocks s.disk.blocks ≤ 8 * length s.d_bitmap
    → (o : Option ℕ) × (find_free_dblock s ≡ ok o s)
      × IsFirstClear s.d_bitmap (inode_blocks_of s.disk.blocks) 0 (data_blocks s.disk.blocks) o
unfolding find_free_dblock
find_free_dblock-IsFirstClear s h =
    let n : ℕ = data_blocks s.disk.blocks in
    let all : 0 + n ≡ n = omega arith in
    subst
      (λ hi.
        (o : Option ℕ) × (find_free_dblock s ≡ ok o s)
        × IsFirstClear s.d_bitmap (inode_blocks_of s.disk.blocks) 0 hi o)
      all (find_in_data-IsFirstClear (inode_blocks_of s.disk.blocks) n 0 s (omega arith))

-- The place of a data block in the bitmap.
abbrev pub data_index : ℕ → ℕ → ℕ
data_index blocks q = q - inode_blocks_of blocks - 1

pub update_dbitmap-ok :
    (q : ℕ) (s : Fs)
    → inode_blocks_of s.disk.blocks < q
    → data_index s.disk.blocks q < 8 * length s.d_bitmap
    → update_dbitmap q s
      ≡ ok tt (record s { d_bitmap = with_bit s.d_bitmap (data_index s.disk.blocks q) })
unfolding update_dbitmap set_d_byte
update_dbitmap-ok q s l h =
    let data_block : ltb q (inode_blocks_of s.disk.blocks + 1) ≡ false = ground arith in
    rw data_block
      (and_then-ok _ (byte_at-ok s.d_bitmap (data_index s.disk.blocks q / 8) s (omega arith)))
