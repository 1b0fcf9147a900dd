-- ===== src/Files/Transfer/Finish.antt =====
-- What follows the loop of `wfswrite`.
use wpi_operating_systems.Base.{
  ℕ, ◌+◌, ◌-◌, ◌*◌, ◌/◌, ◌%◌, ◌^◌, ◌≤◌, ◌<◌, ◌≡◌, ◌≢◌, ◌⊎◌, inl, inr, refl, sym, ◌∙◌, ap, subst,
  Bool, true, false, Option, none, some, List, [], ◌∷◌, ◌++◌, ◌==◌, arith, length, get_or,
  if◌then◌else◌,
}
use wpi_operating_systems.Files.Disk.{
  Block, Fs, Run, Cmd, ok, and_then, and_then-ok, put_block, pure, wwrite, ◌>>=◌, ◌>>◌,
}
use wpi_operating_systems.Files.Disk.Usable.{after_read, with_disk, written, wwrite-ok}
use wpi_operating_systems.Files.Inodes.{Inode, read_inode, write_inode}
use wpi_operating_systems.Files.Inodes.Slots.{IsInode, read_inode-IsInode}
use wpi_operating_systems.Files.Bitmaps.{inode_blocks_of}
use wpi_operating_systems.Files.Bitmaps.Bits.{AllBytes, bit_of}
use wpi_operating_systems.Files.Operations.{inode_block}
use wpi_operating_systems.Files.Operations.Lookup.{inode_block_lem}
use wpi_operating_systems.Files.Operations.Consistent.{
  inode_at, AllData, IsConsistent, is_valid, IsRewritten, inode_at-IsRewritten,
  IsRewritten-IsConsistent,
}
use wpi_operating_systems.Files.Transfer.{seek, write_loop}
use wpi_operating_systems.Files.Transfer.Bytes.{pointer, file}
use wpi_operating_systems.Files.Transfer.Writable.{IsFull}
use wpi_operating_systems.Files.Transfer.WriteLoop.{LoopEnds}
use wpi_operating_systems.Files.Transfer.Rewrites.{
  grown, WroteFile, RefusedWrite, IsConsistent-same, AllData-IsWritable, AllWords-IsWritable,
}

-- The write of the inode behind the loop.
abbrev pub finish : ℕ → ℕ → Block → Option Inode → Cmd (Option ℕ)
finish n len b none = pure none
finish n len b (some inode) =
    wwrite (inode_block n)
      (write_inode b (n % 128) (record inode { size = (inode.size + len) % 2 ^ 32 }))
    >> pure (some len)

abbrev pub with_found : ℕ → List ℕ → ℕ → Option (Block × Inode) → Cmd (Option ℕ)
with_found n xs offset none = pure none
with_found n xs offset (some (b, inode)) =
    write_loop (length xs) inode (seek offset) xs >>= finish n (length xs) b

module _ (inode_blocks n offset : ℕ) (xs : List ℕ) (s : Fs) (c : IsConsistent inode_blocks s)
    (sized : inode_blocks ≡ inode_blocks_of s.disk.blocks) (in_inodes : n < inode_blocks * 128)
    (valid : is_valid (inode_at s.disk.image n) ≡ true)
    (l : LoopEnds
      (after_read s)
      (inode_at s.disk.image n)
      offset
      xs
      (write_loop (length xs) (inode_at s.disk.image n) (seek offset) xs (after_read s))) where
  -- A block before the data blocks is not written by the loop.
  loop_kept : (k : ℕ) → k ≤ inode_blocks → l.state.disk.image k ≡ s.disk.image k
  loop_kept k le = l.writes.others k (λ i h e. elim (l.writes.writable.data_block i) [
    | inl z ↦ h z
    | inr (low, high) ↦ absurd (omega (arith, ap inode_blocks_of l.writes.blocks, sized))
  ])

  data_blocks_of : AllData inode_blocks s.disk.blocks l.direct
  data_blocks_of =
      subst (λ b. AllData b s.disk.blocks l.direct) (sym sized)
        (subst (λ b. AllData (inode_blocks_of b) b l.direct) l.writes.blocks
          (AllData-IsWritable l.state l.direct l.direct 0 l.writes.writable
            (λ i. let e : i ≡ 0 + i = omega arith in ap (pointer l.direct) e)))

  abbrev new_inode : Inode
  new_inode = grown (inode_at s.disk.image n) l.direct (length xs)

  new_inode-IsInode : IsInode new_inode
  new_inode-IsInode =
      let old =
        read_inode-IsInode (s.disk.image (n / 128 + 1)) (n % 128)
          (c.inode_bytes (n / 128 + 1) (omega arith)) in
      record {
        pointers = l.writes.writable.five;
        fits = (
          old.fits.0,
          (
            omega arith,
            AllWords-IsWritable inode_blocks s.disk.blocks l.direct
                (inode_at s.disk.image n).indirect c.usable.blocks_small
                (omega (arith, (c.pointers n in_inodes).1)) data_blocks_of,
          ),
        );
      }

  -- The state when the inode is written.
  abbrev stored : Fs
  stored = with_disk l.state (
      written l.state.disk (n / 128 + 1)
        (write_inode (s.disk.image (n / 128 + 1)) (n % 128) new_inode))

  stored-IsRewritten : IsRewritten inode_blocks s stored n new_inode
  stored-IsRewritten = record {
    usable = record {
      blocks_small = l.writes.writable.usable.blocks_small;
      no_error = l.writes.writable.usable.no_error;
    };
    blocks = l.writes.blocks;
    image = λ k le.
        unfold put_block in
        ap
          (λ b.
            if k == n / 128 + 1
            then write_inode (s.disk.image (n / 128 + 1)) (n % 128) new_inode
            else b)
          (loop_kept k le);
    covers = ap length l.writes.i_bitmap;
    bytes = subst AllBytes (sym l.writes.i_bitmap) c.bitmap_bytes;
    bits = λ m. ap (λ bs. bit_of bs m) l.writes.i_bitmap ∙ by_test m (m == n) refl;
  }
    where
      by_test :
          (m : ℕ) (b : Bool)
          → (m == n) ≡ b
          → bit_of s.i_bitmap m ≡ (if b then is_valid new_inode else bit_of s.i_bitmap m)
      by_test m true e =
          let same : m ≡ n = ground arith in ap (bit_of s.i_bitmap) same ∙ c.agrees n in_inodes
      by_test m false e = refl

  -- The blocks of the file are not those of the inodes.
  stored_file :
      (j : ℕ)
      → pointer l.direct (j / 4096) ≢ 0
      → file stored.disk.image l.direct j ≡ file l.state.disk.image l.direct j
  stored_file j h =
      let other : (pointer l.direct (j / 4096) == n / 128 + 1) ≡ false =
        apart (l.writes.writable.data_block (j / 4096)) (ap inode_blocks_of l.writes.blocks) in
      unfold put_block in rw other refl
    where
      apart :
          (pointer l.direct (j / 4096) ≡ 0)
            ⊎ ((inode_blocks_of l.state.disk.blocks < pointer l.direct (j / 4096))
                × (pointer l.direct (j / 4096) < l.state.disk.blocks))
          → inode_blocks_of l.state.disk.blocks ≡ inode_blocks_of s.disk.blocks
          → (pointer l.direct (j / 4096) == n / 128 + 1) ≡ false
      apart (inl z) e = absurd (h z)
      apart (inr (low, high)) e = ground (arith, low, sized)

  stored-WroteFile : xs ≡ l.done → WroteFile inode_blocks n offset xs s stored
  stored-WroteFile e = record {
    consistent =
        IsRewritten-IsConsistent inode_blocks s stored n new_inode new_inode-IsInode
          stored-IsRewritten c in_inodes data_blocks_of (c.pointers n in_inodes).1;
    mounts = l.writes.mounts;
    blocks = l.writes.blocks;
    direct = l.direct;
    extends = record {
      kept = l.writes.extends.kept;
      bits = l.writes.extends.bits;
      fresh = l.writes.extends.fresh;
    };
    writable = record {
      usable = stored-IsRewritten.usable;
      covers = l.writes.writable.covers;
      bytes = l.writes.writable.bytes;
      five = l.writes.writable.five;
      data_block = l.writes.writable.data_block;
      taken = l.writes.writable.taken;
      distinct = l.writes.writable.distinct;
    };
    inodes =
        inode_at-IsRewritten inode_blocks s stored n new_inode new_inode-IsInode stored-IsRewritten;
    inside = λ j low high.
        stored_file j (l.writes.has_block j low (omega (arith, ap length e)))
        ∙ l.writes.inside j low (omega (arith, ap length e))
        ∙ ap (λ ys. get_or ys (j - offset) 0) (sym e);
    outside = λ j aside h.
        stored_file j (λ z. h (sym (l.writes.extends.kept (j / 4096) h) ∙ z))
        ∙ l.writes.outside j (subst (λ k. (j < offset) ⊎ (offset + k ≤ j)) (ap length e) aside) h;
    others = λ k low h. behind k low ∙ l.writes.others k h;
  }
    where
      behind : (k : ℕ) → inode_blocks < k → stored.disk.image k ≡ l.state.disk.image k
      behind k low =
          unfold put_block in let other : (k == n / 128 + 1) ≡ false = ground arith in rw other refl

  -- How `wfswrite` ends, by how its loop did.
  abbrev pub Stores : Run (Option ℕ) → Type 0
  Stores run =
      (t : Fs) × (((run ≡ ok (some (length xs)) t) × WroteFile inode_blocks n offset xs s t)
        ⊎ ((run ≡ ok none t) × RefusedWrite inode_blocks n s t))

  pub finish-ok : Stores (
      and_then
        (write_loop (length xs) (inode_at s.disk.image n) (seek offset) xs (after_read s))
        (finish n (length xs) (s.disk.image (n / 128 + 1))))
  finish-ok = by_answer l.answer
    where
      by_answer :
          ((write_loop (length xs) (inode_at s.disk.image n) (seek offset) xs (after_read s)
                ≡ ok (some (record (inode_at s.disk.image n) { direct = l.direct })) l.state)
              × (l.rest ≡ []))
            ⊎ ((write_loop (length xs) (inode_at s.disk.image n) (seek offset) xs (after_read s)
                  ≡ ok none l.state)
                × IsFull l.state
                × (l.rest ≢ []))
          → Stores (
              and_then
                (write_loop (length xs) (inode_at s.disk.image n) (seek offset) xs (after_read s))
                (finish n (length xs) (s.disk.image (n / 128 + 1))))
      by_answer (inl (run, nothing)) = (
        stored,
        inl (
          and_then-ok _ run
              ∙ ap
                  (λ at.
                    and_then
                      (wwrite at (write_inode (s.disk.image (n / 128 + 1)) (n % 128) new_inode)
                        l.state)
                      (λ _. pure (some (length xs))))
                  (inode_block_lem n (omega (arith, c.room, c.usable.blocks_small)))
              ∙ and_then-ok _ (
                  wwrite-ok (n / 128 + 1)
                    (write_inode (s.disk.image (n / 128 + 1)) (n % 128) new_inode) l.state
                    l.writes.writable.usable (omega (arith, l.writes.blocks, c.room))),
          stored-WroteFile (l.all ∙ ap (λ ys. l.done ++ ys) nothing ∙ append_none l.done),
        ),
      )
        where
          append_none : (ys : List ℕ) → ys ++ [] ≡ ys
          append_none [] = refl
          append_none (y ∷ ys) = ap (λ zs. y ∷ zs) (append_none ys)
      by_answer (inr (run, full, some_left)) = (
        l.state,
        inr (
          and_then-ok _ run,
          record {
            consistent =
                IsConsistent-same inode_blocks s l.state c l.writes.writable.usable l.writes.blocks
                  l.writes.i_bitmap loop_kept;
            mounts = l.writes.mounts;
            blocks = l.writes.blocks;
            full = full;
            direct = l.direct;
            writable = l.writes.writable;
            extends = record {
              kept = l.writes.extends.kept;
              bits = l.writes.extends.bits;
              fresh = l.writes.extends.fresh;
            };
            others = λ k low h. l.writes.others k h;
            inodes =
                λ m h. ap (λ b. read_inode b (m % 128)) (loop_kept (m / 128 + 1) (omega arith));
          },
        ),
      )
