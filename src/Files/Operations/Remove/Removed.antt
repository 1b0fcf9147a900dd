-- ===== src/Files/Operations/Remove/Removed.antt =====
-- An inode is removed.
use wpi_operating_systems.Base.{
  ℕ, ◌+◌, ◌-◌, ◌*◌, ◌/◌, ◌%◌, ◌<◌, ◌≡◌, inl, inr, refl, ◌∙◌, ap, true, false, Bool-cases, List, [],
  ◌∷◌, ◌++◌, ◌==◌, arith, length, get_or, set, if◌then◌else◌, length-set,
}
use wpi_operating_systems.Files.Disk.{
  Block, Disk, Fs, Cmd, ok, fail, and_then, and_then-ok, put_block,
}
use wpi_operating_systems.Files.Disk.Usable.{
  after_read, IsUsable, with_disk, counted, written, wwrite-ok,
}
use wpi_operating_systems.Files.Inodes.{Inode, write_inode}
use wpi_operating_systems.Files.Inodes.Slots.{IsInode, AllWords, read_inode-IsInode}
use wpi_operating_systems.Files.Bitmaps.{clear_bit, set_i_byte, byte_at}
use wpi_operating_systems.Files.Bitmaps.Bits.{without_bit, bit_of-without_bit, without_bit-AllBytes}
use wpi_operating_systems.Files.Bitmaps.Free.{byte_at-ok}
use wpi_operating_systems.Files.Operations.{reset_pointed, clear_indirect, drop_inode, remove_inode}
use wpi_operating_systems.Files.Operations.Consistent.{
  inode_at, AllData, IsConsistent, IsRewritten, IsRewritten-IsConsistent,
}
use wpi_operating_systems.Files.Operations.Remove.Cleared.{
  cleared_disk, Kept, cleared_disk-Kept, clear_pointed-ok, AllCleared, AllCleared-cleared_disk,
  AllCleared-put_block,
}

-- The inode that `wremove` leaves.
abbrev pub dropped : Inode → Inode
dropped i = record { valid = 0; size = 0; direct = reset_pointed i.direct; indirect = 0 }

length-reset_pointed : (ps : List ℕ) → length (reset_pointed ps) ≡ length ps
unfolding reset_pointed
length-reset_pointed [] = refl
length-reset_pointed (p ∷ ps) = elim (Bool-cases (p == 0)) [
  | inl y ↦ rw y refl
  | inr y ↦ rw (y, length-reset_pointed ps) refl
]

reset_pointed-AllData :
    (inode_blocks blocks : ℕ) (ps : List ℕ)
    → AllData inode_blocks blocks ps
    → AllData inode_blocks blocks (reset_pointed ps)
unfolding reset_pointed
reset_pointed-AllData inode_blocks blocks [] h = tt
reset_pointed-AllData inode_blocks blocks (p ∷ ps) (h, hs) = elim (Bool-cases (p == 0)) [
  | inl y ↦ rw y (h, hs)
  | inr y ↦ rw y (inl refl, reset_pointed-AllData inode_blocks blocks ps hs)
]

pub dropped-IsInode : (i : Inode) → IsInode i → IsInode (dropped i)
unfolding reset_pointed
dropped-IsInode i h = record {
  pointers = length-reset_pointed i.direct ∙ h.pointers;
  fits = (omega arith, (omega arith, AllWords-reset i.direct i.indirect h.fits.1.1));
}
  where
    AllWords-reset :
        (ps : List ℕ) (i : ℕ) → AllWords (ps ++ (i ∷ [])) → AllWords (reset_pointed ps ++ (0 ∷ []))
    AllWords-reset [] i h = (omega arith, tt)
    AllWords-reset (p ∷ ps) i (h, hs) = elim (Bool-cases (p == 0)) [
      | inl y ↦ rw y (h, last_zero ps i hs)
      | inr y ↦ rw y (omega arith, AllWords-reset ps i hs)
    ]
      where
        last_zero : (ps : List ℕ) (i : ℕ) → AllWords (ps ++ (i ∷ [])) → AllWords (ps ++ (0 ∷ []))
        last_zero [] i h = (omega arith, tt)
        last_zero (p ∷ ps) i (h, hs) = (h, last_zero ps i hs)

drop_inode-ok :
    (n : ℕ) (s : Fs)
    → n / 8 < length s.i_bitmap
    → drop_inode (n / 128 + 1) (n % 128) s
      ≡ ok tt (record s { i_bitmap = without_bit s.i_bitmap n })
unfolding drop_inode set_i_byte
drop_inode-ok n s h =
    let row : ((n / 128 + 1 - 1) * 128 + n % 128) / 8 ≡ n / 8 = omega arith in
    let column : n % 128 % 8 ≡ n % 8 = omega arith in
    let some_block : (n / 128 + 1 == 0) ≡ false = ground arith in
    ap (λ b. (if b then fail else clear_at (((n / 128 + 1 - 1) * 128 + n % 128) / 8)) s) some_block
    ∙ ap
        (λ i.
          and_then (byte_at s.i_bitmap i s) (λ byte. set_i_byte i (clear_bit byte (n % 128 % 8))))
        row
    ∙ and_then-ok _ (byte_at-ok s.i_bitmap (n / 8) s h)
    ∙ ap
        (λ c. ok tt (record s {
          i_bitmap = set s.i_bitmap (n / 8) (clear_bit (get_or s.i_bitmap (n / 8) 0) c);
        }))
        column
  where
    clear_at : ℕ → Cmd (Unit {0})
    clear_at i t =
        and_then (byte_at s.i_bitmap i t) (λ byte. set_i_byte i (clear_bit byte (n % 128 % 8)))

-- The state after the inode `n` was removed, with two reads before.
abbrev pub removed : Fs → ℕ → Fs
removed s n =
    let inode = inode_at s.disk.image n in
    let cleared = cleared_disk inode.direct (counted (counted s.disk)) in
    record s {
      disk =
          written cleared (n / 128 + 1)
            (write_inode (s.disk.image (n / 128 + 1)) (n % 128) (dropped inode));
      i_bitmap = without_bit s.i_bitmap n;
    }

module _ (inode_blocks : ℕ) (s : Fs) (n : ℕ) (c : IsConsistent inode_blocks s)
    (inside : n < inode_blocks * 128) where
  -- The state after the reads of the super block and of the block of the inode.
  abbrev before : Fs
  before = after_read (after_read s)

  abbrev cleared : Disk
  cleared = cleared_disk (inode_at s.disk.image n).direct before.disk

  abbrev new_block : Block
  new_block = write_inode (s.disk.image (n / 128 + 1)) (n % 128) (dropped (inode_at s.disk.image n))

  before-IsUsable : IsUsable before.disk
  before-IsUsable = record { blocks_small = c.usable.blocks_small; no_error = c.usable.no_error }

  cleared-Kept : Kept inode_blocks before.disk cleared
  cleared-Kept =
      cleared_disk-Kept inode_blocks s.disk.blocks (inode_at s.disk.image n).direct before.disk
        (c.pointers n inside).0

  pub remove_inode-ok :
      remove_inode
        (n / 128 + 1)
        (n % 128)
        (s.disk.image (n / 128 + 1))
        (inode_at s.disk.image n)
        before
      ≡ ok true (removed s n)
  unfolding remove_inode clear_indirect
  remove_inode-ok =
      let image : Fs = with_disk before cleared in
      let fits : n / 128 + 1 < cleared.blocks =
        omega (arith, cleared-Kept.blocks, c.room, inside) in
      and_then-ok _ (
        clear_pointed-ok inode_blocks (inode_at s.disk.image n).direct before before-IsUsable
          (c.pointers n inside).0)
      ∙ and_then-ok _ (no_indirect image)
      ∙ and_then-ok _
          (wwrite-ok (n / 128 + 1) new_block image (cleared-Kept.usable before-IsUsable) fits)
      ∙ and_then-ok _ (drop_inode-ok n _ (omega (arith, c.covers)))
    where
      no_indirect : (t : Fs) → clear_indirect (inode_at s.disk.image n).indirect t ≡ ok tt t
      no_indirect t = ap (λ i. clear_indirect i t) (c.pointers n inside).1

  pub removed-IsRewritten :
      IsRewritten inode_blocks s (removed s n) n (dropped (inode_at s.disk.image n))
  removed-IsRewritten = record {
    usable = record {
      blocks_small = (cleared-Kept.usable before-IsUsable).blocks_small;
      no_error = (cleared-Kept.usable before-IsUsable).no_error;
    };
    blocks = cleared-Kept.blocks;
    image = λ k l.
        unfold put_block in
        ap (λ b. if k == n / 128 + 1 then new_block else b) (cleared-Kept.image k l);
    covers = length-set s.i_bitmap (n / 8) (clear_bit (get_or s.i_bitmap (n / 8) 0) (n % 8));
    bytes = without_bit-AllBytes s.i_bitmap n c.bitmap_bytes;
    bits = λ m. bit_of-without_bit s.i_bitmap n m c.bitmap_bytes (omega (arith, c.covers));
  }

  pub dropped-inode_at-IsInode : IsInode (dropped (inode_at s.disk.image n))
  dropped-inode_at-IsInode = dropped-IsInode (inode_at s.disk.image n) (
      read_inode-IsInode (s.disk.image (n / 128 + 1)) (n % 128)
        (c.inode_bytes (n / 128 + 1) (omega arith)))

  pub removed-IsConsistent : IsConsistent inode_blocks (removed s n)
  removed-IsConsistent =
      IsRewritten-IsConsistent inode_blocks s (removed s n) n (dropped (inode_at s.disk.image n))
        dropped-inode_at-IsInode removed-IsRewritten c inside
        (reset_pointed-AllData inode_blocks s.disk.blocks (inode_at s.disk.image n).direct
          (c.pointers n inside).0)
        refl

  pub removed-AllCleared : AllCleared (removed s n).disk.image (inode_at s.disk.image n).direct
  removed-AllCleared =
      AllCleared-put_block inode_blocks s.disk.blocks (inode_at s.disk.image n).direct cleared.image
        (n / 128 + 1) new_block (omega arith) (c.pointers n inside).0
        (AllCleared-cleared_disk (inode_at s.disk.image n).direct before.disk)

-- A read changes only its count.
pub IsConsistent-after_read :
    (inode_blocks : ℕ) (s : Fs)
    → IsConsistent inode_blocks s
    → IsConsistent inode_blocks (after_read s)
IsConsistent-after_read inode_blocks s c = record {
  usable = record { blocks_small = c.usable.blocks_small; no_error = c.usable.no_error };
  super = c.super;
  room = c.room;
  covers = c.covers;
  bitmap_bytes = c.bitmap_bytes;
  inode_bytes = c.inode_bytes;
  agrees = c.agrees;
  pointers = c.pointers;
}
