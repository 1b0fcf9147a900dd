-- ===== src/Files/Operations/Remove/Cleared.antt =====
-- The blocks that `wremove` clears.
use wpi_operating_systems.Base.{
  ℕ, zero, suc, ◌≤◌, ◌≡◌, ◌≢◌, ◌⊎◌, inl, inr, refl, ◌∙◌, Bool, true, false, Bool-cases, List, [],
  ◌∷◌, ◌==◌, arith, if◌then◌else◌,
}
use wpi_operating_systems.Files.Disk.{Block, Disk, Fs, ok, and_then-ok, put_block, empty_block}
use wpi_operating_systems.Files.Disk.Usable.{IsUsable, with_disk, written, wwrite-ok}
use wpi_operating_systems.Files.Operations.{clear_pointed}
use wpi_operating_systems.Files.Operations.Consistent.{AllData}

-- The disk with the blocks of a list cleared, up to a pointer that is 0.
abbrev pub cleared_disk : List ℕ → Disk → Disk
cleared_disk [] d = d
cleared_disk (p ∷ ps) d = if p == 0 then d else cleared_disk ps (written d p empty_block)

-- What stays of a disk.
pub record Kept (inode_blocks : ℕ) (d e : Disk) : Type 0 where
  pub blocks : e.blocks ≡ d.blocks
  pub mounts : e.mounts ≡ d.mounts
  pub usable : IsUsable d → IsUsable e
  pub image : (k : ℕ) → k ≤ inode_blocks → e.image k ≡ d.image k

pub cleared_disk-Kept :
    (inode_blocks blocks : ℕ) (ps : List ℕ) (d : Disk)
    → AllData inode_blocks blocks ps
    → Kept inode_blocks d (cleared_disk ps d)
cleared_disk-Kept inode_blocks blocks [] d h = record {
  blocks = refl;
  mounts = refl;
  usable = λ v. v;
  image = λ k l. refl;
}
cleared_disk-Kept inode_blocks blocks (p ∷ ps) d (h, hs) = elim (Bool-cases (p == 0)) [
  | inl y ↦ rw y (record { blocks = refl; mounts = refl; usable = λ v. v; image = λ k l. refl })
  | inr y ↦
      let rest = cleared_disk-Kept inode_blocks blocks ps (written d p empty_block) hs in
      rw y (record {
        blocks = rest.blocks;
        mounts = rest.mounts;
        usable = λ v. rest.usable (record { blocks_small = v.blocks_small; no_error = v.no_error });
        image = λ k l. rest.image k l ∙ (unfold put_block in ground (arith, h));
      })
]

pub clear_pointed-ok :
    (inode_blocks : ℕ) (ps : List ℕ) (s : Fs)
    → IsUsable s.disk
    → AllData inode_blocks s.disk.blocks ps
    → clear_pointed ps s ≡ ok tt (with_disk s (cleared_disk ps s.disk))
unfolding clear_pointed
clear_pointed-ok inode_blocks [] s v h = refl
clear_pointed-ok inode_blocks (p ∷ ps) s v (h, hs) = elim (Bool-cases (p == 0)) [
  | inl y ↦ rw y refl
  | inr y ↦
      let t : Fs = with_disk s (written s.disk p empty_block) in
      rw y (
        and_then-ok _ (wwrite-ok p empty_block s v (ground (arith, h)))
        ∙ clear_pointed-ok inode_blocks ps t
            (record { blocks_small = v.blocks_small; no_error = v.no_error }) hs)
]

-- The blocks of a list are zeros, up to a pointer that is 0.
abbrev pub AllCleared : (ℕ → Block) → List ℕ → Type 0
AllCleared image [] = Unit {0}
AllCleared image (p ∷ ps) = (p ≡ 0) ⊎ ((image p ≡ empty_block) × AllCleared image ps)

cleared_disk-empty :
    (ps : List ℕ) (d : Disk) (k : ℕ)
    → d.image k ≡ empty_block
    → (cleared_disk ps d).image k ≡ empty_block
cleared_disk-empty [] d k e = e
cleared_disk-empty (p ∷ ps) d k e = elim (Bool-cases (p == 0)) [
  | inl y ↦ rw y e
  | inr y ↦ rw y (cleared_disk-empty ps (written d p empty_block) k (written_empty))
]
  where
    written_empty : put_block d.image p empty_block k ≡ empty_block
    written_empty =
        unfold put_block in elim (Bool-cases (k == p)) [ inl z ↦ rw z refl | inr z ↦ rw z e ]

pub AllCleared-cleared_disk : (ps : List ℕ) (d : Disk) → AllCleared (cleared_disk ps d).image ps
AllCleared-cleared_disk [] d = tt
AllCleared-cleared_disk (p ∷ ps) d =
    by_test (p == 0) refl (AllCleared-cleared_disk ps (written d p empty_block))
  where
    here : (p : ℕ) → put_block d.image p empty_block p ≡ empty_block
    here p = unfold put_block in ground arith

    by_test :
        (b : Bool)
        → (p == 0) ≡ b
        → AllCleared (cleared_disk ps (written d p empty_block)).image ps
        → AllCleared (if b then d else cleared_disk ps (written d p empty_block)).image (p ∷ ps)
    by_test true e rest = inl (ground arith)
    by_test false e rest = inr (cleared_disk-empty ps (written d p empty_block) p (here p), rest)

-- A block that no pointer of the list names was written.
pub AllCleared-put_block :
    (inode_blocks blocks : ℕ) (ps : List ℕ) (image : ℕ → Block) (k : ℕ) (b : Block)
    → k ≤ inode_blocks
    → AllData inode_blocks blocks ps
    → AllCleared image ps
    → AllCleared (put_block image k b) ps
AllCleared-put_block inode_blocks blocks [] image k b l h c = tt
AllCleared-put_block inode_blocks blocks (p ∷ ps) image k b l h (inl e) = inl e
AllCleared-put_block inode_blocks blocks (p ∷ ps) image k b l (h, hs) (inr (e, es)) =
    elim (zero_or p) [
      | inl z ↦ inl z
      | inr z ↦ inr (
        unfold put_block in let other : (p == k) ≡ false = ground (arith, h) in rw other e,
        AllCleared-put_block inode_blocks blocks ps image k b l hs es,
      )
    ]
  where
    zero_or : (p : ℕ) → (p ≡ 0) ⊎ (p ≢ 0)
    zero_or zero = inl refl
    zero_or (suc p) = inr (λ e. omega arith)
