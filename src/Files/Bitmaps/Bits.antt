-- ===== src/Files/Bitmaps/Bits.antt =====
-- One bit of a byte, and one bit of a bitmap, set or cleared: the other bits stay.
use wpi_operating_systems.Base.{
  ◌⊎◌, ℕ, zero, suc, ◌/◌, ◌%◌, ◌<◌, ◌≡◌, inl, inr, refl, sym, ◌∙◌, ap, Bool, true, false,
  Bool-cases, List, [], ◌∷◌, ◌&&◌, ◌==◌, ltb, if◌then◌else◌, arith, length, get_or, set,
}
use wpi_operating_systems.Files.Bitmaps.{test_bit, set_bit, clear_bit}

abbrev same_bool : Bool → Bool → Bool
same_bool true b = b
same_bool false true = false
same_bool false false = true

same_bool-eq : (a b : Bool) → same_bool a b ≡ true → a ≡ b
same_bool-eq true true h = refl
same_bool-eq true false h = cc
same_bool-eq false true h = cc
same_bool-eq false false h = refl

-- Whether a test passes for the first numbers.
passes : (ℕ → Bool) → ℕ → Bool
passes test zero = true
passes test (suc k) = if passes test k then test k else false

passes_at : (test : ℕ → Bool) {i : ℕ} (k : ℕ) → i < k → passes test k ≡ true → test i ≡ true
unfolding passes
passes_at test zero l e = absurd (omega arith)
passes_at test {i = i} (suc k) l e = by_last (λ less. passes_at test k less) (passes test k) refl e
  where
    last_or : (i ≡ k) ⊎ (i < k)
    last_or = omega arith

    by_last :
        (i < k → passes test k ≡ true → test i ≡ true)
        → (b : Bool) → passes test k ≡ b
        → (if b then test k else false) ≡ true
        → test i ≡ true
    by_last earlier false y z = cc
    by_last earlier true y z = elim last_or [
      | inl last ↦ ap test last ∙ z
      | inr less ↦ earlier less y
    ]

-- What setting and clearing the bit `k` should do to the bit `j` of a byte.
abbrev set_right : ℕ → ℕ → ℕ → Bool
set_right byte k j =
    same_bool (test_bit (set_bit byte k) j) (if j == k then true else test_bit byte j)
    && ltb (set_bit byte k) 256

abbrev clear_right : ℕ → ℕ → ℕ → Bool
clear_right byte k j =
    same_bool (test_bit (clear_bit byte k) j) (if j == k then false else test_bit byte j)
    && ltb (clear_bit byte k) 256

set_table : passes (λ k. passes (λ j. passes (λ byte. set_right byte k j) 256) 8) 8 ≡ true
unfolding passes test_bit set_bit
set_table = refl

clear_table : passes (λ k. passes (λ j. passes (λ byte. clear_right byte k j) 256) 8) 8 ≡ true
unfolding passes test_bit clear_bit
clear_table = refl

from_table :
    (p : ℕ → ℕ → ℕ → Bool) (byte k j : ℕ)
    → passes (λ k. passes (λ j. passes (λ byte. p byte k j) 256) 8) 8 ≡ true
    → byte < 256
    → k < 8
    → j < 8
    → p byte k j ≡ true
from_table p byte k j table hb hk hj =
    passes_at (λ b. p b k j) 256 hb
      (passes_at (λ i. passes (λ b. p b k i) 256) 8 hj
        (passes_at (λ l. passes (λ i. passes (λ b. p b l i) 256) 8) 8 hk table))

pub test_bit-set_bit :
    (byte k j : ℕ)
    → byte < 256
    → k < 8
    → j < 8
    → (test_bit (set_bit byte k) j ≡ (if j == k then true else test_bit byte j))
      × (set_bit byte k < 256)
test_bit-set_bit byte k j hb hk hj =
    let h = from_table set_right byte k j set_table hb hk hj in
    (same_bool-eq _ _ (ground arith), ground arith)

pub test_bit-clear_bit :
    (byte k j : ℕ)
    → byte < 256
    → k < 8
    → j < 8
    → (test_bit (clear_bit byte k) j ≡ (if j == k then false else test_bit byte j))
      × (clear_bit byte k < 256)
test_bit-clear_bit byte k j hb hk hj =
    let h = from_table clear_right byte k j clear_table hb hk hj in
    (same_bool-eq _ _ (ground arith), ground arith)

-- the bytes of a bitmap
abbrev pub AllBytes : List ℕ → Type 0
AllBytes [] = Unit {0}
AllBytes (b ∷ bs) = (b < 256) × AllBytes bs

-- the bit of the inode `n` in the bitmap
abbrev pub bit_of : List ℕ → ℕ → Bool
bit_of bitmap n = test_bit (get_or bitmap (n / 8) 0) (n % 8)

get_or-lt : (bs : List ℕ) (i : ℕ) → AllBytes bs → get_or bs i 0 < 256
get_or-lt [] i h = omega arith
get_or-lt (b ∷ bs) zero (h, hs) = h
get_or-lt (b ∷ bs) (suc i) (h, hs) = get_or-lt bs i hs

pub set-AllBytes : (bs : List ℕ) (i v : ℕ) → AllBytes bs → v < 256 → AllBytes (set bs i v)
set-AllBytes [] i v h l = h
set-AllBytes (b ∷ bs) zero v (h, hs) l = (l, hs)
set-AllBytes (b ∷ bs) (suc i) v (h, hs) l = (h, set-AllBytes bs i v hs l)

pub get_or-set :
    (bs : List ℕ) (i j v : ℕ)
    → i < length bs
    → get_or (set bs i v) j 0 ≡ (if j == i then v else get_or bs j 0)
get_or-set [] i j v h = absurd (omega arith)
get_or-set (b ∷ bs) zero zero v h = refl
get_or-set (b ∷ bs) zero (suc j) v h = ground arith
get_or-set (b ∷ bs) (suc i) zero v h = ground arith
get_or-set (b ∷ bs) (suc i) (suc j) v h = ground (arith, get_or-set bs i j v (omega arith))

-- A bitmap in which one byte was changed in one bit.
module _ (change : ℕ → ℕ → ℕ) (value : Bool)
    (right : (byte k j : ℕ)
      → byte < 256
      → k < 8
      → j < 8
      → (test_bit (change byte k) j ≡ (if j == k then value else test_bit byte j))
        × (change byte k < 256)) where
  bit_of_changed :
      (bs : List ℕ) (n m : ℕ)
      → AllBytes bs
      → n / 8 < length bs
      → bit_of (set bs (n / 8) (change (get_or bs (n / 8) 0) (n % 8))) m
        ≡ (if m == n then value else bit_of bs m)
  bit_of_changed bs n m h l =
      let byte : ℕ = get_or bs (n / 8) 0 in
      let new : ℕ = change byte (n % 8) in
      let (bit, small) =
        right byte (n % 8) (m % 8) (get_or-lt bs (n / 8) h) (omega arith) (omega arith) in
      let at = get_or-set bs (n / 8) (m / 8) new l in
      elim (Bool-cases (m / 8 == n / 8)) [
        | inl y ↦
            let row : m / 8 ≡ n / 8 = ground arith in
            let here : get_or (set bs (n / 8) new) (m / 8) 0 ≡ new = at ∙ rw y in
            ap (λ b. test_bit b (m % 8)) here
            ∙ bit
            ∙ same_column m n row (test_bit byte (m % 8)) (bit_of bs m)
                (ap (λ q. test_bit (get_or bs q 0) (m % 8)) (sym row))
        | inr y ↦
            let other : (m == n) ≡ false = other_row m n y in
            let there : get_or (set bs (n / 8) new) (m / 8) 0 ≡ get_or bs (m / 8) 0 = at ∙ rw y in
            ap (λ b. test_bit b (m % 8)) there ∙ sym (rw other)
      ]
    where
      same_column :
          (m n : ℕ)
          → m / 8 ≡ n / 8
          → (a b : Bool) → a ≡ b
          → (if m % 8 == n % 8 then value else a) ≡ (if m == n then value else b)
      same_column m n row a b e = elim (Bool-cases (m % 8 == n % 8)) [
        | inl y ↦ let same : (m == n) ≡ true = ground arith in rw (y, same)
        | inr y ↦ let same : (m == n) ≡ false = ground arith in rw (y, same) e
      ]

      other_row : (m n : ℕ) → (m / 8 == n / 8) ≡ false → (m == n) ≡ false
      other_row m n y = ground arith

  changed-AllBytes :
      (bs : List ℕ) (n : ℕ)
      → AllBytes bs
      → AllBytes (set bs (n / 8) (change (get_or bs (n / 8) 0) (n % 8)))
  changed-AllBytes bs n h =
      set-AllBytes bs (n / 8) (change (get_or bs (n / 8) 0) (n % 8)) h
        (right (get_or bs (n / 8) 0) (n % 8) 0 (get_or-lt bs (n / 8) h) (omega arith)
          (omega arith)).1

-- The bitmap with the bit of the inode `n` set, and with it cleared.
abbrev pub with_bit : List ℕ → ℕ → List ℕ
with_bit bs n = set bs (n / 8) (set_bit (get_or bs (n / 8) 0) (n % 8))

abbrev pub without_bit : List ℕ → ℕ → List ℕ
without_bit bs n = set bs (n / 8) (clear_bit (get_or bs (n / 8) 0) (n % 8))

pub bit_of-with_bit :
    (bs : List ℕ) (n m : ℕ)
    → AllBytes bs
    → n / 8 < length bs
    → bit_of (with_bit bs n) m ≡ (if m == n then true else bit_of bs m)
bit_of-with_bit = bit_of_changed set_bit true test_bit-set_bit

pub bit_of-without_bit :
    (bs : List ℕ) (n m : ℕ)
    → AllBytes bs
    → n / 8 < length bs
    → bit_of (without_bit bs n) m ≡ (if m == n then false else bit_of bs m)
bit_of-without_bit = bit_of_changed clear_bit false test_bit-clear_bit

pub with_bit-AllBytes : (bs : List ℕ) (n : ℕ) → AllBytes bs → AllBytes (with_bit bs n)
with_bit-AllBytes = changed-AllBytes set_bit true test_bit-set_bit

pub without_bit-AllBytes : (bs : List ℕ) (n : ℕ) → AllBytes bs → AllBytes (without_bit bs n)
without_bit-AllBytes = changed-AllBytes clear_bit false test_bit-clear_bit
