-- ===== src/Files/Operations/Create.antt =====
-- `create` takes the first inode that is free.
pub mod Taken
use wpi_operating_systems.Base.{
  ℕ, zero, suc, ◌+◌, ◌-◌, ◌*◌, ◌/◌, ◌%◌, ◌≤◌, ◌<◌, ◌≡◌, ◌⊎◌, inl, inr, refl, sym, ◌∙◌, ap, subst,
  true, false, Option, none, some, List, [], ◌∷◌, ◌++◌, ◌==◌, ℤ, pos, arith, length, get_or, set,
  if◌then◌else◌, length-set,
}
use wpi_operating_systems.Files.Disk.{Block, Fs, Run, ok, and_then, and_then-ok}
use wpi_operating_systems.Files.Disk.Usable.{
  after_read, IsUsable, with_disk, counted, written, wread-ok, wwrite-ok,
}
use wpi_operating_systems.Files.Inodes.{Inode, read_inode, write_inode}
use wpi_operating_systems.Files.Inodes.Slots.{IsInode, AllWords, read_inode-IsInode}
use wpi_operating_systems.Files.Bitmaps.{set_bit, set_i_byte, find_free_inode}
use wpi_operating_systems.Files.Bitmaps.Bits.{bit_of, bit_of-with_bit, with_bit-AllBytes}
use wpi_operating_systems.Files.Bitmaps.Free.{
  inode_bit, IsFirstFree, find_free_inode-IsFirstFree, byte_at-ok,
}
use wpi_operating_systems.Files.Mounting.{err_create_inode}
use wpi_operating_systems.Files.Operations.{write_Inode, take_inode, create_from, create}
use wpi_operating_systems.Files.Operations.Consistent.{
  inode_at, IsConsistent, inode_bit-bit_of, is_valid, IsRewritten, inode_at-IsRewritten,
  IsRewritten-IsConsistent,
}
use wpi_operating_systems.Files.Operations.Create.Taken.{
  emptied, write_Inode-ok, take_inode-ok, new_block, changed, taken, emptied-IsInode,
  taken-IsRewritten,
}

-- The first inode from `lo` on and before `hi` that is free, if there is one; the state and the
-- number that `create` returns.
abbrev Creates : ℕ → ℕ → Fs → Run ℤ → Option ℕ → Type 0
Creates lo hi s run none =
    (run ≡ ok err_create_inode s) × ((m : ℕ) → lo ≤ m → m < hi → bit_of s.i_bitmap m ≡ true)
Creates lo hi s run (some n) =
    (run ≡ ok (pos (n % 128)) (taken s n))
    × (lo ≤ n)
    × (n < hi)
    × (bit_of s.i_bitmap n ≡ false)
    × ((m : ℕ) → lo ≤ m → m < n → bit_of s.i_bitmap m ≡ true)

-- Inodes before the first one of the search that are taken too.
Creates-extend :
    (lo mid hi : ℕ) (s : Fs) (run : Run ℤ) (o : Option ℕ)
    → lo ≤ mid
    → ((m : ℕ) → lo ≤ m → m < mid → bit_of s.i_bitmap m ≡ true)
    → Creates mid hi s run o
    → Creates lo hi s run o
Creates-extend lo mid hi s run none le low (e, all) = (e, both)
  where
    both : (m : ℕ) → lo ≤ m → m < hi → bit_of s.i_bitmap m ≡ true
    both m l h = elim (split m) [ inl less ↦ low m l less | inr more ↦ all m more h ]
      where
        split : (m : ℕ) → (m < mid) ⊎ (mid ≤ m)
        split m = omega arith
Creates-extend lo mid hi s run (some n) le low (e, l, h, free, before) =
    (e, omega arith, h, free, both)
  where
    both : (m : ℕ) → lo ≤ m → m < n → bit_of s.i_bitmap m ≡ true
    both m l h = elim (split m) [ inl less ↦ low m l less | inr more ↦ before m more h ]
      where
        split : (m : ℕ) → (m < mid) ⊎ (mid ≤ m)
        split m = omega arith

module _ (s : Fs) (v : IsUsable s.disk) where
  -- The inode blocks all of whose inodes are taken.
  full_block :
      (i k : ℕ)
      → k ≤ 128
      → ((j : ℕ) → j < k → inode_bit s.i_bitmap i j ≡ true)
      → (m : ℕ) → i * 128 ≤ m
      → m < i * 128 + k
      → bit_of s.i_bitmap m ≡ true
  full_block i k le all m l h =
      let place : i * 128 + (m - i * 128) ≡ m = omega arith in
      ap (bit_of s.i_bitmap) (sym place)
      ∙ sym (inode_bit-bit_of s.i_bitmap i (m - i * 128) (omega arith))
      ∙ all (m - i * 128) (omega arith)

  take_at :
      (i k : ℕ)
      → k < 128
      → i + 1 < s.disk.blocks
      → i * 16 + 16 ≤ length s.i_bitmap
      → and_then
          (write_Inode (i + 1) k s)
          (λ _ t. and_then (take_inode i k t) (λ _ u. ok (pos k) u))
        ≡ ok (pos ((i * 128 + k) % 128)) (taken s (i * 128 + k))
  take_at i k h room covers =
      let n : ℕ = i * 128 + k in
      let block : i + 1 ≡ n / 128 + 1 = omega arith in
      let place : k ≡ n % 128 = omega arith in
      let row : i * 16 + k / 8 ≡ n / 8 = omega arith in
      let column : k % 8 ≡ n % 8 = omega arith in
      and_then-ok _ (write_Inode-ok (i + 1) k s v room)
      ∙ and_then-ok _ (
          take_inode-ok i k
            (with_disk s (written (counted s.disk) (i + 1) (new_block (s.disk.image (i + 1)) k)))
            (omega arith))
      ∙ ap (λ b. ok (pos k) (changed s b k (i * 16 + k / 8) (k % 8))) block
      ∙ ap (λ q. ok (pos q) (changed s (n / 128 + 1) q (i * 16 + k / 8) (k % 8))) place
      ∙ ap (λ q. ok (pos (n % 128)) (changed s (n / 128 + 1) (n % 128) q (k % 8))) row
      ∙ ap (λ q. ok (pos (n % 128)) (changed s (n / 128 + 1) (n % 128) (n / 8) q)) column

  create_from-Creates :
      (inode_blocks n i : ℕ)
      → i + n ≡ inode_blocks
      → inode_blocks < s.disk.blocks
      → length s.i_bitmap ≡ inode_blocks * 16
      → (o : Option ℕ) × Creates (i * 128) (inode_blocks * 128) s (create_from n i s) o
  unfolding create_from
  create_from-Creates inode_blocks zero i e room covers =
      (none, (refl, λ m l h. absurd (omega arith)))
  create_from-Creates inode_blocks (suc n) i e room covers =
      let (f, run, first) = find_free_inode-IsFirstFree i s (omega arith) in
      go f run first (create_from-Creates inode_blocks n (i + 1) (omega arith) room covers)
    where
      go :
          (f : Option ℕ)
          → find_free_inode i s ≡ ok f s
          → IsFirstFree s.i_bitmap i f
          → (o : Option ℕ) × Creates
              ((i + 1) * 128)
              (inode_blocks * 128)
              s
              (create_from n (i + 1) s)
              o
          → (o : Option ℕ) × Creates (i * 128) (inode_blocks * 128) s (create_from (suc n) i s) o
      go none run first (o, rest) =
          let same : create_from (suc n) i s ≡ create_from n (i + 1) s = and_then-ok _ run in
          (
            o,
            subst (λ r. Creates (i * 128) (inode_blocks * 128) s r o) (sym same)
                (Creates-extend (i * 128) ((i + 1) * 128) (inode_blocks * 128) s
                  (create_from n (i + 1) s) o (omega arith)
                  (λ m l h. full_block i 128 (omega arith) first m l (omega arith)) rest),
          )
      go (some k) run (h, free, before) rest = (
        some (i * 128 + k),
        (
          and_then-ok _ run ∙ take_at i k h (omega arith) (omega arith),
          omega arith,
          omega arith,
          sym (inode_bit-bit_of s.i_bitmap i k h) ∙ free,
          full_block i k (omega arith) before,
        ),
      )

-- What `create` does, by bits and blocks.
create-Creates :
    (inode_blocks : ℕ) (s : Fs)
    → IsConsistent inode_blocks s
    → (o : Option ℕ) × Creates 0 (inode_blocks * 128) (after_read s) (create s) o
unfolding create
create-Creates inode_blocks s c =
    let (o, found) =
      create_from-Creates (after_read s)
        (record { blocks_small = c.usable.blocks_small; no_error = c.usable.no_error }) inode_blocks
        inode_blocks 0 (omega arith) c.room c.covers in
    (
      o,
      subst (λ r. Creates 0 (inode_blocks * 128) (after_read s) r o)
          (sym (
            and_then-ok _ (wread-ok 0 s c.usable (omega (arith, c.room)))
            ∙ ap (λ n. create_from n 0 (after_read s)) c.super))
          found,
    )

-- What `create` returns and leaves: the error, with the inodes as they were, all of them valid; or the
-- place of the inode `n`, the first one that was not valid, which is now valid and empty.
abbrev pub CreatesInode : ℕ → Fs → ℤ → Fs → Option ℕ → Type 0
CreatesInode inode_blocks s r t none =
    (r ≡ err_create_inode)
    × (t ≡ after_read s)
    × ((m : ℕ) → m < inode_blocks * 128 → is_valid (inode_at s.disk.image m) ≡ true)
CreatesInode inode_blocks s r t (some n) =
    (r ≡ pos (n % 128))
    × (n < inode_blocks * 128)
    × (is_valid (inode_at s.disk.image n) ≡ false)
    × ((m : ℕ) → m < n → is_valid (inode_at s.disk.image m) ≡ true)
    × ((m : ℕ)
        → m < inode_blocks * 128
        → inode_at t.disk.image m
          ≡ (if m == n then emptied (inode_at s.disk.image n) else inode_at s.disk.image m))

-- On a consistent disk `create` returns, and the disk stays consistent. It makes the first inode that
-- is not valid a valid and empty one, which keeps its direct pointers, and changes no other inode. It
-- returns the place of the inode in its inode block, not its number. If all inodes are valid, it
-- returns the error and writes nothing.
pub create-IsConsistent :
    (inode_blocks : ℕ) (s : Fs)
    → IsConsistent inode_blocks s
    → (r : ℤ) × (t : Fs) × (o : Option ℕ) × (create s ≡ ok r t)
      × IsConsistent inode_blocks t
      × CreatesInode inode_blocks s r t o
create-IsConsistent inode_blocks s c =
    let (o, found) = create-Creates inode_blocks s c in go o found
  where
    go :
        (o : Option ℕ)
        → Creates 0 (inode_blocks * 128) (after_read s) (create s) o
        → (r : ℤ) × (t : Fs) × (o : Option ℕ) × (create s ≡ ok r t)
          × IsConsistent inode_blocks t
          × CreatesInode inode_blocks s r t o
    go none (run, all) = (
      err_create_inode,
      after_read s,
      none,
      run,
      record {
        usable = record { blocks_small = c.usable.blocks_small; no_error = c.usable.no_error };
        super = c.super;
        room = c.room;
        covers = c.covers;
        bitmap_bytes = c.bitmap_bytes;
        inode_bytes = c.inode_bytes;
        agrees = c.agrees;
        pointers = c.pointers;
      },
      (refl, refl, λ m l. sym (c.agrees m l) ∙ all m (omega arith) l),
    )
    go (some n) (run, l, inside, free, before) =
        let i : Inode = emptied (inode_at s.disk.image n) in
        let h : IsInode i = emptied-IsInode (inode_at s.disk.image n) (
          read_inode-IsInode (s.disk.image (n / 128 + 1)) (n % 128)
            (c.inode_bytes (n / 128 + 1) (omega arith))) in
        let w = taken-IsRewritten inode_blocks s n c inside in
        (
          pos (n % 128),
          taken (after_read s) n,
          some n,
          run,
          IsRewritten-IsConsistent inode_blocks s (taken (after_read s) n) n i h w c inside
              (c.pointers n inside).0 refl,
          (
            refl,
            inside,
            sym (c.agrees n inside) ∙ free,
            λ m less. sym (c.agrees m (omega arith)) ∙ before m (omega arith) less,
            inode_at-IsRewritten inode_blocks s (taken (after_read s) n) n i h w,
          ),
        )
