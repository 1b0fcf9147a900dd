-- ===== src/Files/Transfer/Writable.antt =====
-- The direct pointers of a file that can be written, and a block for one of them.
use wpi_operating_systems.Base.{
  ℕ, ◌*◌, ◌/◌, ◌%◌, ◌≤◌, ◌<◌, ◌≡◌, ◌≢◌, ◌⊎◌, inl, inr, refl, sym, ◌∙◌, ap, subst, Bool, true, false,
  Bool-cases, Option, none, some, List, ◌==◌, not, arith, length, get_or, set, length-set,
  if◌then◌else◌,
}
use wpi_operating_systems.Files.Disk.{Fs, Run, Cmd, ok, and_then-ok, pure, ◌>>=◌, ◌>>◌}
use wpi_operating_systems.Files.Disk.Usable.{IsUsable}
use wpi_operating_systems.Files.Inodes.{Inode}
use wpi_operating_systems.Files.Bitmaps.{inode_blocks_of, set_bit, update_dbitmap, find_free_dblock}
use wpi_operating_systems.Files.Bitmaps.Bits.{
  AllBytes, bit_of, with_bit, bit_of-with_bit, with_bit-AllBytes, get_or-set,
}
use wpi_operating_systems.Files.Bitmaps.FreeBlocks.{
  data_blocks, data_index, IsFirstClear, find_free_dblock-IsFirstClear, update_dbitmap-ok,
}
use wpi_operating_systems.Files.Transfer.{assign_direct}
use wpi_operating_systems.Files.Transfer.Bytes.{pointer}
use wpi_operating_systems.Files.Transfer.Extends.{Extends, Extends-refl}

-- A disk whose bitmap covers the data blocks, and five pointers, each 0 or a data block of its own that
-- the bitmap has.
pub record IsWritable (s : Fs) (direct : List ℕ) : Type 0 where
  pub usable : IsUsable s.disk
  pub covers : data_blocks s.disk.blocks ≤ 8 * length s.d_bitmap
  pub bytes : AllBytes s.d_bitmap
  pub five : length direct ≡ 5
  pub data_block :
      (i : ℕ)
      → (pointer direct i ≡ 0)
        ⊎ ((inode_blocks_of s.disk.blocks < pointer direct i) × (pointer direct i < s.disk.blocks))
  pub taken :
      (i : ℕ)
      → pointer direct i ≢ 0
      → bit_of s.d_bitmap (data_index s.disk.blocks (pointer direct i)) ≡ true
  pub distinct : (i j : ℕ) → pointer direct i ≢ 0 → pointer direct i ≡ pointer direct j → i ≡ j

-- No data block is free.
abbrev pub IsFull : Fs → Type 0
IsFull s = (k : ℕ) → k < data_blocks s.disk.blocks → bit_of s.d_bitmap k ≡ true

-- What `assign_direct` does at the pointer `i`.
abbrev pub Assigns : Fs → Inode → ℕ → Run (Option (Inode × ℕ)) → Type 0
Assigns s inode i run =
    ((run ≡ ok none s) × IsFull s)
    ⊎ ((es : List ℕ) × (bitmap : List ℕ) × (run
          ≡ ok (some (record inode { direct = es }, pointer es i)) (record s { d_bitmap = bitmap }))
        × (pointer es i ≢ 0)
        × IsWritable (record s { d_bitmap = bitmap }) es
        × Extends s (record s { d_bitmap = bitmap }) inode.direct es)

-- The search for a block, by what it found.
abbrev with_block : Inode → ℕ → Option ℕ → Cmd (Option (Inode × ℕ))
with_block inode i none = pure none
with_block inode i (some q) =
    update_dbitmap q >> pure (some (record inode { direct = set inode.direct i q }, q))

module _ (s : Fs) (inode : Inode) (i : ℕ) (w : IsWritable s inode.direct) (inside : i < 5) where
  -- The pointers and the bitmap after a block was taken.
  abbrev new_direct : ℕ → List ℕ
  new_direct q = set inode.direct i q

  abbrev new_state : ℕ → Fs
  new_state q = record s { d_bitmap = with_bit s.d_bitmap (data_index s.disk.blocks q) }

  pointer-new_direct :
      (q j : ℕ) → pointer (new_direct q) j ≡ (if j == i then q else pointer inode.direct j)
  pointer-new_direct q j = get_or-set inode.direct i j q (omega (arith, w.five))

  new_here : (q : ℕ) → q ≡ pointer (new_direct q) i
  new_here q = same i (pointer inode.direct i) ∙ sym (pointer-new_direct q i)
    where
      same : (k p : ℕ) → q ≡ (if k == k then q else p)
      same k p = ground arith

  module _ (q : ℕ) (empty : pointer inode.direct i ≡ 0) (first : inode_blocks_of s.disk.blocks < q)
      (last : q < s.disk.blocks)
      (free : bit_of s.d_bitmap (data_index s.disk.blocks q) ≡ false) where
    new_bit :
        (k : ℕ)
        → bit_of (new_state q).d_bitmap k
          ≡ (if k == data_index s.disk.blocks q then true else bit_of s.d_bitmap k)
    new_bit k =
        bit_of-with_bit s.d_bitmap (data_index s.disk.blocks q) k w.bytes (omega (arith, w.covers))

    -- No other pointer has the block.
    new_block_apart : (j : ℕ) → pointer inode.direct j ≢ 0 → pointer inode.direct j ≢ q
    new_block_apart j h e = absurd (
        Bool-apart
          (sym (w.taken j h) ∙ ap (λ p. bit_of s.d_bitmap (data_index s.disk.blocks p)) e ∙ free))
      where
        Bool-apart : true ≢ false
        Bool-apart h = cc

    new_taken :
        (j : ℕ)
        → pointer (new_direct q) j ≢ 0
        → bit_of (new_state q).d_bitmap (data_index s.disk.blocks (pointer (new_direct q) j)) ≡ true
    new_taken j h = elim (Bool-cases (j == i)) [
      | inl y ↦
          let here : pointer (new_direct q) j ≡ q = pointer-new_direct q j ∙ rw y refl in
          ap (λ p. bit_of (new_state q).d_bitmap (data_index s.disk.blocks p)) here
          ∙ new_bit (data_index s.disk.blocks q)
          ∙ same (data_index s.disk.blocks q)
      | inr y ↦
          let there : pointer (new_direct q) j ≡ pointer inode.direct j =
            pointer-new_direct q j ∙ rw y refl in
          ap (λ p. bit_of (new_state q).d_bitmap (data_index s.disk.blocks p)) there
          ∙ new_bit (data_index s.disk.blocks (pointer inode.direct j))
          ∙ either (data_index s.disk.blocks (pointer inode.direct j) == data_index s.disk.blocks q)
              (w.taken j (λ e. h (there ∙ e)))
    ]
      where
        same : (k : ℕ) → (if k == k then true else bit_of s.d_bitmap k) ≡ true
        same k = ground arith

        either : (b : Bool) {x : Bool} → x ≡ true → (if b then true else x) ≡ true
        either true e = refl
        either false e = e

    new_distinct :
        (j k : ℕ)
        → pointer (new_direct q) j ≢ 0
        → pointer (new_direct q) j ≡ pointer (new_direct q) k
        → j ≡ k
    new_distinct j k h e =
        by_tests (j == i) (k == i) refl refl (λ z. h (pointer-new_direct q j ∙ z))
          (sym (pointer-new_direct q j) ∙ e ∙ pointer-new_direct q k)
      where
        by_tests :
            (b c : Bool)
            → (j == i) ≡ b
            → (k == i) ≡ c
            → (if b then q else pointer inode.direct j) ≢ 0
            → (if b then q else pointer inode.direct j) ≡ (if c then q else pointer inode.direct k)
            → j ≡ k
        by_tests true true y z h e = ground arith
        by_tests true false y z h e = absurd (new_block_apart k (λ d. h (e ∙ d)) (sym e))
        by_tests false true y z h e = absurd (new_block_apart j h e)
        by_tests false false y z h e = w.distinct j k h e

    new-IsWritable : IsWritable (new_state q) (new_direct q)
    new-IsWritable = record {
      usable = w.usable;
      covers =
          let same = length-set s.d_bitmap (data_index s.disk.blocks q / 8) (
            set_bit (get_or s.d_bitmap (data_index s.disk.blocks q / 8) 0)
              (data_index s.disk.blocks q % 8)) in
          omega (arith, w.covers, same);
      bytes = with_bit-AllBytes s.d_bitmap (data_index s.disk.blocks q) w.bytes;
      five = length-set inode.direct i q ∙ w.five;
      data_block = λ j.
          subst (λ p. (p ≡ 0) ⊎ ((inode_blocks_of s.disk.blocks < p) × (p < s.disk.blocks)))
            (sym (pointer-new_direct q j))
            (in_range (j == i) (pointer inode.direct j) (w.data_block j));
      taken = new_taken;
      distinct = new_distinct;
    }
      where
        in_range :
            (b : Bool) (p : ℕ)
            → (p ≡ 0) ⊎ ((inode_blocks_of s.disk.blocks < p) × (p < s.disk.blocks))
            → ((if b then q else p) ≡ 0)
              ⊎ ((inode_blocks_of s.disk.blocks < (if b then q else p))
                  × ((if b then q else p) < s.disk.blocks))
        in_range true p h = inr (first, last)
        in_range false p h = h

    new_kept :
        (j : ℕ) → pointer inode.direct j ≢ 0 → pointer (new_direct q) j ≡ pointer inode.direct j
    new_kept j h = pointer-new_direct q j ∙ by_test (j == i) refl
      where
        by_test :
            (b : Bool)
            → (j == i) ≡ b
            → (if b then q else pointer inode.direct j) ≡ pointer inode.direct j
        by_test true y = absurd (h (ap (pointer inode.direct) (at y) ∙ empty))
          where
            at : (j == i) ≡ true → j ≡ i
            at y = ground arith
        by_test false y = refl

    new-Extends : Extends s (new_state q) inode.direct (new_direct q)
    new-Extends = record {
      kept = new_kept;
      bits = λ k e. new_bit k ∙ either (k == data_index s.disk.blocks q) e;
      fresh = λ j z h.
          ap (λ p. bit_of s.d_bitmap (data_index s.disk.blocks p))
            (pointer-new_direct q j
              ∙ only_here (j == i) (pointer inode.direct j) z (λ d. h (pointer-new_direct q j ∙ d)))
          ∙ free;
    }
      where
        either : (b : Bool) {x : Bool} → x ≡ true → (if b then true else x) ≡ true
        either true e = refl
        either false e = e

        only_here : (b : Bool) (p : ℕ) → p ≡ 0 → (if b then q else p) ≢ 0 → (if b then q else p) ≡ q
        only_here true p z h = refl
        only_here false p z h = absurd (h z)

    with_block-ok :
        with_block inode i (some q) s
        ≡ ok (some (record inode { direct = new_direct q }, pointer (new_direct q) i)) (new_state q)
    with_block-ok =
        and_then-ok _ (update_dbitmap-ok q s first (omega (arith, w.covers)))
        ∙ ap (λ p. ok (some (record inode { direct = new_direct q }, p)) (new_state q)) (new_here q)

  pub assign_direct-ok : Assigns s inode i (assign_direct inode i (pointer inode.direct i) s)
  unfolding assign_direct
  assign_direct-ok = by_test (pointer inode.direct i == 0) refl
    where
      by_search :
          pointer inode.direct i ≡ 0
          → (o : Option ℕ)
          → IsFirstClear s.d_bitmap (inode_blocks_of s.disk.blocks) 0 (data_blocks s.disk.blocks) o
          → Assigns s inode i (with_block inode i o s)
      by_search e none all = inl (refl, λ k l. all k (omega arith) l)
      by_search e (some q) (low, high, free, before) =
          let first : inode_blocks_of s.disk.blocks < q = omega arith in
          let last : q < s.disk.blocks = omega arith in
          inr (
            new_direct q,
            with_bit s.d_bitmap (data_index s.disk.blocks q),
            with_block-ok q e first last free,
            subst (λ p. p ≢ 0) (new_here q) (nonzero q first),
            new-IsWritable q e first last free,
            new-Extends q e first last free,
          )
        where
          nonzero : (q : ℕ) → inode_blocks_of s.disk.blocks < q → q ≢ 0
          nonzero q l e = omega arith

      by_test :
          (b : Bool)
          → (pointer inode.direct i == 0) ≡ b
          → Assigns s inode i (
              (if not b
                  then pure (some (inode, pointer inode.direct i))
                  else (find_free_dblock >>= with_block inode i))
                s)
      by_test true y =
          let (o, run, first) = find_free_dblock-IsFirstClear s w.covers in
          subst (Assigns s inode i) (sym (and_then-ok _ run)) (by_search (ground arith) o first)
      by_test false y = inr (
        inode.direct,
        s.d_bitmap,
        refl,
        λ e. absurd (ground arith),
        w,
        Extends-refl s inode.direct,
      )
