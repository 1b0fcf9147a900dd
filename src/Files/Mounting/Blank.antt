-- ===== src/Files/Mounting/Blank.antt =====
-- A disk that was formatted and mounted is consistent, if malloc returns zeros.
use wpi_operating_systems.Base.{
  ℕ, zero, suc, ◌+◌, ◌-◌, ◌*◌, ◌/◌, ◌%◌, ◌≤◌, ◌<◌, ◌≡◌, ◌⊎◌, inl, inr, refl, sym, ◌∙◌, ap, subst,
  false, List, [], ◌∷◌, arith, length, get_or,
}
use wpi_operating_systems.Files.Disk.{Block, Fs, ok, ◌>>=◌}
use wpi_operating_systems.Files.Disk.Usable.{IsUsable, with_disk}
use wpi_operating_systems.Files.Inodes.{Inode, word, words, read_super, read_inode}
use wpi_operating_systems.Files.Inodes.Slots
use wpi_operating_systems.Files.Bitmaps.{inode_blocks_of, test_bit}
use wpi_operating_systems.Files.Bitmaps.Bits.{AllBytes, bit_of}
use wpi_operating_systems.Files.Mounting.{success_good_mount, format, fresh_bytes, super_of, mount}
use wpi_operating_systems.Files.Mounting.Formatted.{
  IsZero, inode_blocks_of-lt, fresh_bitmaps, mount-format,
}
use wpi_operating_systems.Files.Operations.Consistent.{inode_at, AllData, IsConsistent, is_valid}

-- The inode of zeros.
abbrev pub blank : Inode
blank = record { valid = 0; size = 0; direct = 0 ∷ 0 ∷ 0 ∷ 0 ∷ 0 ∷ []; indirect = 0 }

read_inode-blank : (b : Block) (j : ℕ) → IsZero b → read_inode b j ≡ blank
unfolding read_inode words
read_inode-blank b j z =
    let at : (o : ℕ) → word b o ≡ 0 =
      λ o. unfold word in rw (z o, z (o + 1), z (o + 2), z (o + 3)) (omega arith) in
    rw (
      at (j * 32),
      at (j * 32 + 4),
      at (j * 32 + 8),
      at (j * 32 + 8 + 4),
      at (j * 32 + 8 + 4 + 4),
      at (j * 32 + 8 + 4 + 4 + 4),
      at (j * 32 + 8 + 4 + 4 + 4 + 4),
      at (j * 32 + 28),
    )

-- A bitmap of zeros.
abbrev pub AllZero : List ℕ → Type 0
AllZero [] = Unit {0}
AllZero (b ∷ bs) = (b ≡ 0) × AllZero bs

zero_byte : (k : ℕ) → k < 8 → test_bit 0 k ≡ false
unfolding test_bit
zero_byte zero h = refl
zero_byte (suc zero) h = refl
zero_byte (suc (suc zero)) h = refl
zero_byte (suc (suc (suc zero))) h = refl
zero_byte (suc (suc (suc (suc zero)))) h = refl
zero_byte (suc (suc (suc (suc (suc zero))))) h = refl
zero_byte (suc (suc (suc (suc (suc (suc zero)))))) h = refl
zero_byte (suc (suc (suc (suc (suc (suc (suc zero))))))) h = refl
zero_byte (suc (suc (suc (suc (suc (suc (suc (suc k)))))))) h = absurd (omega arith)

pub bit_of-AllZero : (bitmap : List ℕ) (n : ℕ) → AllZero bitmap → bit_of bitmap n ≡ false
bit_of-AllZero bitmap n h =
    ap (λ b. test_bit b (n % 8)) (at bitmap (n / 8) h) ∙ zero_byte (n % 8) (omega arith)
  where
    at : (bs : List ℕ) (i : ℕ) → AllZero bs → get_or bs i 0 ≡ 0
    at [] i h = refl
    at (b ∷ bs) zero (h, hs) = h
    at (b ∷ bs) (suc i) (h, hs) = at bs i hs

AllZero-AllBytes : (bs : List ℕ) → AllZero bs → AllBytes bs
AllZero-AllBytes [] h = tt
AllZero-AllBytes (b ∷ bs) (h, hs) = (omega (arith, h), AllZero-AllBytes bs hs)

-- Inode blocks of zeros, and a bitmap of zeros for them.
pub AllZero-IsConsistent :
    (inode_blocks : ℕ) (s : Fs)
    → IsUsable s.disk
    → (read_super (s.disk.image 0)).inode_blocks ≡ inode_blocks
    → inode_blocks < s.disk.blocks
    → Slots.AllBytes (s.disk.image 0)
    → ((k : ℕ) → 1 ≤ k → k ≤ inode_blocks → IsZero (s.disk.image k))
    → length s.i_bitmap ≡ inode_blocks * 16
    → AllZero s.i_bitmap
    → IsConsistent inode_blocks s
      × ((n : ℕ) → n < inode_blocks * 128 → inode_at s.disk.image n ≡ blank)
AllZero-IsConsistent inode_blocks s v super room bytes zeros covers clear = (
  record {
    usable = v;
    super = super;
    room = room;
    covers = covers;
    bitmap_bytes = AllZero-AllBytes s.i_bitmap clear;
    inode_bytes = λ k l. elim (first k) [
      | inl z ↦ subst (λ i. Slots.AllBytes (s.disk.image i)) (sym z) bytes
      | inr more ↦ λ o. omega (arith, zeros k more l o)
    ];
    agrees = λ n h. bit_of-AllZero s.i_bitmap n clear ∙ ap is_valid (sym (inode_blank n h));
    pointers = λ n h.
        subst (λ i. AllData inode_blocks s.disk.blocks i.direct × (i.indirect ≡ 0))
          (sym (inode_blank n h))
          ((inl refl, (inl refl, (inl refl, (inl refl, (inl refl, tt))))), refl);
  },
  inode_blank,
)
  where
    first : (k : ℕ) → (k ≡ 0) ⊎ (1 ≤ k)
    first k = omega arith

    inode_blank : (n : ℕ) → n < inode_blocks * 128 → inode_at s.disk.image n ≡ blank
    inode_blank n h =
        read_inode-blank (s.disk.image (n / 128 + 1)) (n % 128)
          (zeros (n / 128 + 1) (omega arith) (omega arith))

length-fresh_bytes : (junk : ℕ → ℕ) (n i : ℕ) → length (fresh_bytes junk n i) ≡ n
unfolding fresh_bytes
length-fresh_bytes junk zero i = refl
length-fresh_bytes junk (suc n) i = ap suc (length-fresh_bytes junk n (i + 1))

fresh_bytes-AllZero :
    (junk : ℕ → ℕ) (n i : ℕ) → ((k : ℕ) → junk k ≡ 0) → AllZero (fresh_bytes junk n i)
unfolding fresh_bytes
fresh_bytes-AllZero junk zero i z = tt
fresh_bytes-AllZero junk (suc n) i z = (z i, fresh_bytes-AllZero junk n (i + 1) z)

-- On a disk of 2 to 2 ^ 19 blocks that is not mounted and whose transfers succeed, `format` and
-- then `mount` succeed and leave a disk that is mounted and consistent, with as many inode blocks as
-- its size gives, no valid inode and no data block taken, if malloc returns zeros for the bitmaps.
pub mount-IsConsistent :
    (junk : ℕ → ℕ) (s : Fs)
    → ((k : ℕ) → junk k ≡ 0)
    → IsUsable s.disk
    → 1 < s.disk.blocks
    → s.disk.mounts ≡ 0
    → (t : Fs) × ((format >>= λ done. mount junk) s ≡ ok success_good_mount t)
      × IsConsistent (inode_blocks_of s.disk.blocks) t
      × (t.disk.mounts ≡ 1)
      × (t.disk.blocks ≡ s.disk.blocks)
      × ((n : ℕ) → n < inode_blocks_of s.disk.blocks * 128 → inode_at t.disk.image n ≡ blank)
      × ((k : ℕ) → bit_of t.d_bitmap k ≡ false)
mount-IsConsistent junk s z v some_blocks unmounted =
    let n : ℕ = inode_blocks_of s.disk.blocks in
    let (e, run, once, blocks, usable, formatted) = mount-format junk s v some_blocks unmounted in
    let t : Fs = with_disk (fresh_bitmaps junk s) e in
    let less : n < s.disk.blocks = inode_blocks_of-lt s.disk.blocks some_blocks in
    let (consistent, blanks) =
      AllZero-IsConsistent n t usable
        (ap (λ u. u.inode_blocks) formatted.super
          ∙ super_inode_blocks e.blocks
          ∙ ap inode_blocks_of blocks)
        (omega (arith, blocks, less)) formatted.bytes
        (λ k l m. formatted.zeros k l (omega (arith, blocks, less)))
        (length-fresh_bytes junk (n * 16) 0) (fresh_bytes-AllZero junk (n * 16) 0 z) in
    (
      t,
      run,
      consistent,
      once,
      blocks,
      blanks,
      λ k.
          bit_of-AllZero t.d_bitmap k
            (fresh_bytes-AllZero junk ((s.disk.blocks - n - 1 + 7) / 8) (n * 16) z),
    )
  where
    super_inode_blocks : (n : ℕ) → (super_of n).inode_blocks ≡ inode_blocks_of n
    super_inode_blocks n = unfold super_of in refl
