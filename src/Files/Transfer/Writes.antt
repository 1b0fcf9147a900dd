-- ===== src/Files/Transfer/Writes.antt =====
-- What the rounds of `wfswrite` leave in a file, together.
use wpi_operating_systems.Base.{
  ℕ, zero, suc, ◌+◌, ◌-◌, ◌*◌, ◌/◌, ◌%◌, ◌≤◌, ◌<◌, ◌≡◌, ◌≢◌, ◌⊎◌, inl, inr, refl, sym, ◌∙◌, ap,
  subst, false, Bool-cases, List, [], ◌∷◌, ◌++◌, ◌==◌, arith, length, length-append, get_or,
}
use wpi_operating_systems.Files.Disk.{Block, Fs, put_block}
use wpi_operating_systems.Files.Disk.Usable.{with_disk, counted, written}
use wpi_operating_systems.Files.Transfer.{put_bytes}
use wpi_operating_systems.Files.Transfer.Extends.{Extends, Extends-refl, Extends-trans}
use wpi_operating_systems.Files.Transfer.Bytes.{pointer, file}
use wpi_operating_systems.Files.Transfer.Writable.{IsWritable}

-- The bytes `xs` were written at the place `o` of the file with the pointers `direct`, which are
-- `direct'` then: pointers that were not 0 stay, so do the other bytes of the file, and blocks of other
-- files.
pub record Writes (s : Fs) (direct : List ℕ) (o : ℕ) (xs : List ℕ) (t : Fs) (direct' : List ℕ)
    : Type 0 where
  pub writable : IsWritable t direct'
  pub blocks : t.disk.blocks ≡ s.disk.blocks
  pub mounts : t.disk.mounts ≡ s.disk.mounts
  pub i_bitmap : t.i_bitmap ≡ s.i_bitmap
  pub extends : Extends s t direct direct'
  pub has_block : (j : ℕ) → o ≤ j → j < o + length xs → pointer direct' (j / 4096) ≢ 0
  pub inside :
      (j : ℕ) → o ≤ j → j < o + length xs → file t.disk.image direct' j ≡ get_or xs (j - o) 0
  pub outside :
      (j : ℕ)
      → (j < o) ⊎ (o + length xs ≤ j)
      → pointer direct (j / 4096) ≢ 0
      → file t.disk.image direct' j ≡ file s.disk.image direct j
  pub others :
      (k : ℕ)
      → ((i : ℕ) → pointer direct' i ≢ 0 → pointer direct' i ≢ k)
      → t.disk.image k ≡ s.disk.image k

-- Nothing is written.
pub Writes-none :
    (s : Fs) (direct : List ℕ) (o : ℕ) → IsWritable s direct → Writes s direct o [] s direct
Writes-none s direct o w = record {
  writable = w;
  blocks = refl;
  mounts = refl;
  i_bitmap = refl;
  extends = Extends-refl s direct;
  has_block = λ j l m. absurd (omega arith);
  inside = λ j l m. absurd (omega arith);
  outside = λ j l h. refl;
  others = λ k h. refl;
}

get_or-append_left :
    (xs ys : List ℕ) (i : ℕ) → i < length xs → get_or (xs ++ ys) i 0 ≡ get_or xs i 0
get_or-append_left [] ys i h = absurd (omega arith)
get_or-append_left (x ∷ xs) ys zero h = refl
get_or-append_left (x ∷ xs) ys (suc i) h = get_or-append_left xs ys i (omega arith)

get_or-append_right : (xs ys : List ℕ) (i : ℕ) → get_or (xs ++ ys) (length xs + i) 0 ≡ get_or ys i 0
get_or-append_right [] ys i =
    let e : length {A = ℕ} [] + i ≡ i = omega arith in ap (λ k. get_or ys k 0) e
get_or-append_right (x ∷ xs) ys i =
    let e : length (x ∷ xs) + i ≡ suc (length xs + i) = omega arith in
    ap (λ k. get_or (x ∷ (xs ++ ys)) k 0) e ∙ get_or-append_right xs ys i

-- Bytes are written, and then those behind them.
pub Writes-append :
    (s t u : Fs) (direct direct' direct'' : List ℕ) (o : ℕ) (xs ys : List ℕ)
    → Writes s direct o xs t direct'
    → Writes t direct' (o + length xs) ys u direct''
    → Writes s direct o (xs ++ ys) u direct''
Writes-append s t u direct direct' direct'' o xs ys v w =
    let total = length-append xs ys in
    record {
      writable = w.writable;
      blocks = w.blocks ∙ v.blocks;
      mounts = w.mounts ∙ v.mounts;
      i_bitmap = w.i_bitmap ∙ v.i_bitmap;
      extends = Extends-trans s t u direct direct' direct'' v.blocks v.extends w.extends;
      has_block = λ j l m. elim (side j) [
        | inl less ↦
            λ z. v.has_block j l less (sym (w.extends.kept (j / 4096) (v.has_block j l less)) ∙ z)
        | inr more ↦ w.has_block j more (omega (arith, total))
      ];
      inside = λ j l m. elim (side j) [
        | inl less ↦
            w.outside j (inl less) (v.has_block j l less)
            ∙ v.inside j l less
            ∙ sym (get_or-append_left xs ys (j - o) (omega arith))
        | inr more ↦
            let place : length xs + (j - (o + length xs)) ≡ j - o = omega arith in
            w.inside j more (omega (arith, total))
            ∙ sym (get_or-append_right xs ys (j - (o + length xs)))
            ∙ ap (λ k. get_or (xs ++ ys) k 0) place
      ];
      outside = λ j l h.
          w.outside j (before_or_behind j l total) (still (j / 4096) h)
          ∙ v.outside j (shorter j l total) h;
      others = λ k h.
          w.others k h
          ∙ v.others k
              (λ i z e. h i (λ d. z (sym (w.extends.kept i z) ∙ d)) (w.extends.kept i z ∙ e));
    }
  where
    still : (i : ℕ) → pointer direct i ≢ 0 → pointer direct' i ≢ 0
    still i h z = h (sym (v.extends.kept i h) ∙ z)

    side : (j : ℕ) → (j < o + length xs) ⊎ (o + length xs ≤ j)
    side j = omega arith

    before_or_behind :
        (j : ℕ)
        → (j < o) ⊎ (o + length (xs ++ ys) ≤ j)
        → length (xs ++ ys) ≡ length xs + length ys
        → (j < o + length xs) ⊎ (o + length xs + length ys ≤ j)
    before_or_behind j l total = omega arith

    shorter :
        (j : ℕ)
        → (j < o) ⊎ (o + length (xs ++ ys) ≤ j)
        → length (xs ++ ys) ≡ length xs + length ys
        → (j < o) ⊎ (o + length xs ≤ j)
    shorter j l total = omega arith

-- The bytes of a block after some were put.
pub put_bytes_inside :
    (b : Block) (o : ℕ) (xs : List ℕ) (k : ℕ)
    → o ≤ k
    → k < o + length xs
    → put_bytes b o xs k ≡ get_or xs (k - o) 0
unfolding put_bytes
put_bytes_inside b o [] k l h = absurd (omega arith)
put_bytes_inside b o (x ∷ xs) k l h = elim (Bool-cases (k == o)) [
  | inl y ↦ let first : k - o ≡ 0 = ground arith in rw y (ap (λ i. get_or (x ∷ xs) i 0) (sym first))
  | inr y ↦
      let more : k - o ≡ suc (k - (o + 1)) = ground arith in
      rw y (
        put_bytes_inside b (o + 1) xs k (ground arith) (omega arith)
        ∙ ap (λ i. get_or (x ∷ xs) i 0) (sym more))
]

pub put_bytes_outside :
    (b : Block) (o : ℕ) (xs : List ℕ) (k : ℕ)
    → (k < o) ⊎ (o + length xs ≤ k)
    → put_bytes b o xs k ≡ b k
unfolding put_bytes
put_bytes_outside b o [] k h = refl
put_bytes_outside b o (x ∷ xs) k h =
    let other : (k == o) ≡ false = ground arith in
    rw other (put_bytes_outside b (o + 1) xs k (omega arith))

-- The state after the bytes `xs` were put at `o` into the block `q`, which was read before.
abbrev pub put : Fs → ℕ → ℕ → List ℕ → Fs
put s q o xs = with_disk s (written (counted s.disk) q (put_bytes (s.disk.image q) o xs))

-- Bytes are written into the block of the pointer `i`.
pub Writes-put :
    (s t : Fs) (direct direct' : List ℕ) (i o : ℕ) (xs : List ℕ)
    → IsWritable t direct'
    → t.disk ≡ s.disk
    → t.i_bitmap ≡ s.i_bitmap
    → pointer direct' i ≢ 0
    → Extends s t direct direct'
    → o + length xs ≤ 4096
    → Writes s direct (i * 4096 + o) xs (put t (pointer direct' i) o xs) direct'
Writes-put s t direct direct' i o xs w disk bitmap nonzero extends fits = record {
  writable = record {
    usable = record { blocks_small = w.usable.blocks_small; no_error = w.usable.no_error };
    covers = w.covers;
    bytes = w.bytes;
    five = w.five;
    data_block = w.data_block;
    taken = w.taken;
    distinct = w.distinct;
  };
  blocks = ap (λ d. d.blocks) disk;
  mounts = ap (λ d. d.mounts) disk;
  i_bitmap = bitmap;
  extends = record { kept = extends.kept; bits = extends.bits; fresh = extends.fresh };
  has_block = λ j l m.
      let row : i ≡ j / 4096 = omega arith in subst (λ r. pointer direct' r ≢ 0) row nonzero;
  inside = λ j l m.
      let row : j / 4096 ≡ i = omega arith in
      let place : j % 4096 - o ≡ j - (i * 4096 + o) = omega arith in
      at_row j row
      ∙ put_bytes_inside (t.disk.image (pointer direct' i)) o xs (j % 4096) (omega arith)
          (omega arith)
      ∙ ap (λ k. get_or xs k 0) place;
  outside = λ j l h. elim (Bool-cases (j / 4096 == i)) [
    | inl y ↦
        let row : j / 4096 ≡ i = ground arith in
        at_row j row
        ∙ put_bytes_outside (t.disk.image (pointer direct' i)) o xs (j % 4096) (aside j row l)
        ∙ ap (λ r. t.disk.image (pointer direct' r) (j % 4096)) (sym row)
        ∙ ap (λ p. t.disk.image p (j % 4096)) (extends.kept (j / 4096) h)
        ∙ ap (λ d. d.image (pointer direct (j / 4096)) (j % 4096)) disk
    | inr y ↦
        ap (λ b. b (j % 4096)) (elsewhere (pointer direct' (j / 4096)) (apart j h y))
        ∙ ap (λ p. t.disk.image p (j % 4096)) (extends.kept (j / 4096) h)
        ∙ ap (λ d. d.image (pointer direct (j / 4096)) (j % 4096)) disk
  ];
  others = λ k h. elsewhere k (λ e. h i nonzero (sym e)) ∙ ap (λ d. d.image k) disk;
}
  where
    new : ℕ → Block
    new =
        put_block t.disk.image (pointer direct' i)
          (put_bytes (t.disk.image (pointer direct' i)) o xs)

    at_row :
        (j : ℕ)
        → j / 4096 ≡ i
        → new (pointer direct' (j / 4096)) (j % 4096)
          ≡ put_bytes (t.disk.image (pointer direct' i)) o xs (j % 4096)
    at_row j row =
        ap (λ r. new (pointer direct' r) (j % 4096)) row
        ∙ ap (λ b. b (j % 4096)) (self (pointer direct' i) t.disk.image _)
      where
        self : (q : ℕ) (image : ℕ → Block) (b : Block) → put_block image q b q ≡ b
        self q image b = unfold put_block in ground arith

    elsewhere : (k : ℕ) → k ≢ pointer direct' i → new k ≡ t.disk.image k
    elsewhere k ne =
        unfold put_block in
        let other : (k == pointer direct' i) ≡ false = ground arith in rw other refl

    apart :
        (j : ℕ)
        → pointer direct (j / 4096) ≢ 0
        → (j / 4096 == i) ≡ false
        → pointer direct' (j / 4096) ≢ pointer direct' i
    apart j h y e =
        let same : j / 4096 ≡ i =
          w.distinct (j / 4096) i (λ z. h (sym (extends.kept (j / 4096) h) ∙ z)) e in
        absurd (ground arith)

    aside :
        (j : ℕ)
        → j / 4096 ≡ i
        → (j < i * 4096 + o) ⊎ (i * 4096 + o + length xs ≤ j)
        → (j % 4096 < o) ⊎ (o + length xs ≤ j % 4096)
    aside j row l = omega arith
