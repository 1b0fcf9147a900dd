-- ===== src/Files/Transfer/WriteRound.antt =====
-- One round of `wfswrite` at a direct block.
use wpi_operating_systems.Base.{
  ℕ, ◌+◌, ◌*◌, ◌≤◌, ◌<◌, ◌≡◌, ◌≢◌, ◌⊎◌, inl, inr, refl, sym, ◌∙◌, ap, subst, false, Option, none,
  some, List, ltb, arith, length, if◌then◌else◌,
}
use wpi_operating_systems.Files.Disk.{
  Block, Fs, Run, Cmd, ok, and_then, and_then-ok, pure, fail, wread, wwrite, ◌>>=◌, ◌>>◌,
}
use wpi_operating_systems.Files.Disk.Usable.{with_disk, counted, wread-ok, wwrite-ok}
use wpi_operating_systems.Files.Inodes.{Inode}
use wpi_operating_systems.Files.Bitmaps.Free.{get_elem?-get_or}
use wpi_operating_systems.Files.Transfer.{
  Cursor, put_bytes, assign_direct, write_direct, write_indirect, write_round,
}
use wpi_operating_systems.Files.Transfer.Bytes.{pointer}
use wpi_operating_systems.Files.Transfer.Writable.{IsWritable, IsFull, assign_direct-ok, Assigns}
use wpi_operating_systems.Files.Transfer.Writes.{Writes, put, Writes-put}

-- The round at a direct block, behind the search for its block.
abbrev with_assigned : Cursor → List ℕ → Option (Inode × ℕ) → Cmd (Option (Inode × Cursor))
with_assigned c xs none = pure none
with_assigned c xs (some (inode, q)) = wread q >>= λ b.
    wwrite q (put_bytes b c.cur_offset xs)
    >> pure (
        some (
          inode,
          record c { direct_iter = c.direct_iter + 1; data_buffer = put_bytes b c.cur_offset xs },
        ))

-- A round fails with no data block free, or writes the bytes and goes on to the next block.
abbrev pub RoundEnds : Fs → Inode → Cursor → List ℕ → Run (Option (Inode × Cursor)) → Type 0
RoundEnds s inode c xs run =
    ((run ≡ ok none s) × IsFull s)
    ⊎ ((t : Fs) × (es : List ℕ) × (b : Block) × (run
          ≡ ok
              (some (
                record inode { direct = es },
                record c { direct_iter = c.direct_iter + 1; data_buffer = b },
              ))
              t)
        × Writes s inode.direct (c.direct_iter * 4096 + c.cur_offset) xs t es)

pub write_round-ok :
    (inode : Inode) (c : Cursor) (xs : List ℕ) (s : Fs)
    → IsWritable s inode.direct
    → c.direct_iter < 5
    → c.cur_offset + length xs ≤ 4096
    → RoundEnds s inode c xs (write_round inode c xs s)
unfolding write_round write_direct
write_round-ok inode c xs s w near fits =
    let direct : ltb 4 c.direct_iter ≡ false = ground arith in
    subst (RoundEnds s inode c xs)
      (sym (
        ap (λ b. (if b then write_indirect inode c xs else write_direct inode c xs) s) direct
        ∙ ap (λ p. by_pointer p s)
            (get_elem?-get_or inode.direct c.direct_iter (omega (arith, w.five)))))
      (by_assignment (assign_direct inode c.direct_iter (pointer inode.direct c.direct_iter) s)
        (assign_direct-ok s inode c.direct_iter w near))
  where
    by_pointer : Option ℕ → Cmd (Option (Inode × Cursor))
    by_pointer none = fail
    by_pointer (some p) = assign_direct inode c.direct_iter p >>= with_assigned c xs

    by_assignment :
        (run : Run (Option (Inode × ℕ)))
        → Assigns s inode c.direct_iter run
        → RoundEnds s inode c xs (and_then run (with_assigned c xs))
    by_assignment run (inl (e, full)) = inl (and_then-ok _ e, full)
    by_assignment run (inr (es, bitmap, e, nonzero, new, kept)) =
        let t : Fs = record s { d_bitmap = bitmap } in
        let q : ℕ = pointer es c.direct_iter in
        let last = on_disk t es c.direct_iter nonzero new in
        inr (
          put t q c.cur_offset xs,
          es,
          put_bytes (s.disk.image q) c.cur_offset xs,
          and_then-ok _ e
              ∙ and_then-ok _ (wread-ok q t new.usable last)
              ∙ and_then-ok _ (
                  wwrite-ok q (put_bytes (s.disk.image q) c.cur_offset xs)
                    (with_disk t (counted t.disk))
                    (record {
                      blocks_small = new.usable.blocks_small;
                      no_error = new.usable.no_error;
                    })
                    last),
          Writes-put s t inode.direct es c.direct_iter c.cur_offset xs new refl refl nonzero kept
              fits,
        )
      where
        on_disk :
            (t : Fs) (es : List ℕ) (i : ℕ)
            → pointer es i ≢ 0
            → IsWritable t es
            → pointer es i < t.disk.blocks
        on_disk t es i nonzero new = elim (new.data_block i) [
          | inl z ↦ absurd (nonzero z)
          | inr (l, h) ↦ h
        ]
