-- ===== src/Files/Transfer/Extends.antt =====
-- The pointers of a file and the bitmap as writes extend them.
use wpi_operating_systems.Base.{
  ℕ, zero, suc, ◌≡◌, ◌≢◌, inl, inr, refl, sym, ◌∙◌, ap, true, false, Bool-cases, List,
}
use wpi_operating_systems.Files.Disk.{Fs}
use wpi_operating_systems.Files.Bitmaps.Bits.{bit_of}
use wpi_operating_systems.Files.Bitmaps.FreeBlocks.{data_index}
use wpi_operating_systems.Files.Transfer.Bytes.{pointer}

-- Pointers that are not 0 stay, and so do the bits that are set; a pointer that was 0 and is not 0 now
-- is to a block that was free.
pub record Extends (s t : Fs) (direct direct' : List ℕ) : Type 0 where
  pub kept : (i : ℕ) → pointer direct i ≢ 0 → pointer direct' i ≡ pointer direct i
  pub bits : (k : ℕ) → bit_of s.d_bitmap k ≡ true → bit_of t.d_bitmap k ≡ true
  pub fresh :
      (i : ℕ)
      → pointer direct i ≡ 0
      → pointer direct' i ≢ 0
      → bit_of s.d_bitmap (data_index s.disk.blocks (pointer direct' i)) ≡ false

pub Extends-refl : (s : Fs) (direct : List ℕ) → Extends s s direct direct
Extends-refl s direct = record {
  kept = λ i h. refl;
  bits = λ k e. e;
  fresh = λ i z h. absurd (h z);
}

pub Extends-trans :
    (s t u : Fs) (direct direct' direct'' : List ℕ)
    → t.disk.blocks ≡ s.disk.blocks
    → Extends s t direct direct'
    → Extends t u direct' direct''
    → Extends s u direct direct''
Extends-trans s t u direct direct' direct'' blocks v w = record {
  kept = λ i h. w.kept i (λ z. h (sym (v.kept i h) ∙ z)) ∙ v.kept i h;
  bits = λ k e. w.bits k (v.bits k e);
  fresh = λ i z h. by_middle i z h (pointer direct' i) refl;
}
  where
    apart : true ≢ false
    apart e = cc

    -- A bit that is clear later was clear before.
    clear_before : (k : ℕ) → bit_of t.d_bitmap k ≡ false → bit_of s.d_bitmap k ≡ false
    clear_before k e = elim (Bool-cases (bit_of s.d_bitmap k)) [
      | inl y ↦ absurd (apart (sym (v.bits k y) ∙ e))
      | inr y ↦ y
    ]

    by_middle :
        (i : ℕ)
        → pointer direct i ≡ 0
        → pointer direct'' i ≢ 0
        → (p : ℕ) → pointer direct' i ≡ p
        → bit_of s.d_bitmap (data_index s.disk.blocks (pointer direct'' i)) ≡ false
    by_middle i z h zero e = clear_before (data_index s.disk.blocks (pointer direct'' i)) (
        ap (λ b. bit_of t.d_bitmap (data_index b (pointer direct'' i))) (sym blocks)
        ∙ w.fresh i e h)
    by_middle i z h (suc p) e =
        let some_block : pointer direct' i ≢ 0 = λ d. cc in
        ap (λ q. bit_of s.d_bitmap (data_index s.disk.blocks q)) (w.kept i some_block)
        ∙ v.fresh i z some_block
