-- ===== src/Files/Display/Fresh.antt =====
-- What `debug` prints of a disk that was just formatted.
use wpi_operating_systems.Base.{
  ℕ, zero, suc, ◌+◌, ◌*◌, ◌≤◌, ◌<◌, ◌≡◌, refl, ap, ◌∙◌, false, List, [], ◌∷◌, ◌==◌, if◌then◌else◌,
  arith,
}
use wpi_operating_systems.Files.Disk.{Disk, Block, Fs, Cmd, ok, ◌>>=◌, and_then-ok}
use wpi_operating_systems.Files.Disk.Usable.{IsUsable, with_disk, counted, wread-ok}
use wpi_operating_systems.Files.Inodes.{Inode, word, read_inode}
use wpi_operating_systems.Files.Bitmaps.{inode_blocks_of}
use wpi_operating_systems.Files.Mounting.{super_of, format}
use wpi_operating_systems.Files.Mounting.Formatted.{
  IsZero, SameShape, IsUsable-SameShape, inode_blocks_of-lt, IsFormatted, format-ok,
}
use wpi_operating_systems.Files.Display.{
  Line, super_block_line, magic_valid_line, blocks_line, inode_blocks_line, inodes_line,
  display_super_block, display_listed, display_valid, display_inodes, display_rest, display_blocks,
  debug,
}

display_valid_zero :
    (inode : Inode) (j : ℕ) (rest : Cmd (List Line)) (s : Fs)
    → inode.valid ≡ 0
    → display_valid inode j rest s ≡ rest s
unfolding display_valid
display_valid_zero inode j rest s e =
    ap (λ v. (if v == 0 then rest else display_listed inode j rest) s) e

display_inodes_zero : (b : Block) (n j : ℕ) (s : Fs) → IsZero b → display_inodes b n j s ≡ ok [] s
unfolding display_inodes
display_inodes_zero b zero j s z = refl
display_inodes_zero b (suc n) j s z =
    let none_valid : (read_inode b j).valid ≡ 0 =
      unfold read_inode word in
      rw (z (j * 32), z (j * 32 + 1), z (j * 32 + 2), z (j * 32 + 3)) (omega arith) in
    display_valid_zero (read_inode b j) j (display_inodes b n (j + 1)) s none_valid
    ∙ display_inodes_zero b n (j + 1) s z

display_blocks_zero :
    (n i : ℕ) (s : Fs)
    → IsUsable s.disk
    → i + n < s.disk.blocks
    → ((k : ℕ) → i + 1 ≤ k → k < i + 1 + n → IsZero (s.disk.image k))
    → (e : Disk) × (display_blocks n i s ≡ ok [] (with_disk s e)) × (e.image ≡ s.disk.image)
unfolding display_blocks
display_blocks_zero zero i s v h zeros = (s.disk, refl, refl)
display_blocks_zero (suc n) i s v h zeros =
    let d : Disk = counted s.disk in
    let same : SameShape s.disk d = record {
      same_blocks = refl;
      same_mounts = refl;
      same_errors = λ n. refl;
    } in
    let (e, run, image) =
      display_blocks_zero n (i + 1) (with_disk s d) (IsUsable-SameShape s.disk d same v)
        (omega arith) (λ k l m. zeros k (omega arith) (omega arith)) in
    (
      e,
      and_then-ok _ (wread-ok (i + 1) s v (omega arith))
          ∙ and_then-ok _ (
              display_inodes_zero (s.disk.image (i + 1)) 128 0 (with_disk s d)
                (zeros (i + 1) (omega arith) (omega arith)))
          ∙ and_then-ok _ run,
      image,
    )

-- the lines of the super block of a disk of `n` blocks
abbrev pub super_lines : ℕ → List Line
super_lines n =
    super_block_line
    ∷ magic_valid_line
    ∷ blocks_line n
    ∷ inode_blocks_line (inode_blocks_of n)
    ∷ inodes_line (128 * inode_blocks_of n)
    ∷ []

display_super_of : (n : ℕ) → display_super_block (super_of n) ≡ (false, super_lines n)
unfolding display_super_block super_of
display_super_of n = refl

debug_formatted :
    (s : Fs)
    → IsUsable s.disk
    → 1 < s.disk.blocks
    → IsFormatted s.disk
    → (e : Disk) × (debug s ≡ ok (super_lines s.disk.blocks) (with_disk s e))
      × (e.image ≡ s.disk.image)
unfolding debug display_rest super_of
debug_formatted s v some_blocks f =
    let n : ℕ = s.disk.blocks in
    let d : Disk = counted s.disk in
    let same : SameShape s.disk d = record {
      same_blocks = refl;
      same_mounts = refl;
      same_errors = λ n. refl;
    } in
    let less : inode_blocks_of n < n = inode_blocks_of-lt n some_blocks in
    let (e, run, image) =
      display_blocks_zero (inode_blocks_of n) 0 (with_disk s d) (IsUsable-SameShape s.disk d same v)
        (omega arith) (λ k l m. f.zeros k (omega arith) (omega arith)) in
    (
      e,
      and_then-ok _ (wread-ok 0 s v (omega arith))
          ∙ ap (λ t. display_rest (display_super_block t) t.inode_blocks (with_disk s d)) f.super
          ∙ ap (λ t. display_rest t (inode_blocks_of n) (with_disk s d)) (display_super_of n)
          ∙ and_then-ok _ run,
      image,
    )

-- On a disk of 2 to 2 ^ 19 blocks that is not mounted and whose transfers succeed, `debug` after
-- `format` prints the super block of the disk, with a valid magic number and one inode block for
-- each ten blocks, rounded up, and no inode.
debug-format :
    (s : Fs)
    → IsUsable s.disk
    → 1 < s.disk.blocks
    → s.disk.mounts ≡ 0
    → (e : Disk) × ((format >>= λ done. debug) s ≡ ok (super_lines s.disk.blocks) (with_disk s e))
debug-format s v some_blocks unmounted =
    let (d, run, same, formatted) = format-ok s v some_blocks unmounted in
    let q = same.same_blocks in
    let (e, run', image) =
      debug_formatted (with_disk s d) (IsUsable-SameShape s.disk d same v) (omega arith)
        formatted in
    (e, and_then-ok _ run ∙ run' ∙ ap (λ n. ok (super_lines n) (with_disk s e)) q)
