-- ===== src/Files/Inodes/Slots.antt =====
-- An inode is read back from the block that it was written to, and the other inodes of the block stay.
use wpi_operating_systems.Base.{
  ℕ, zero, suc, ◌+◌, ◌*◌, ◌^◌, ◌≤◌, ◌<◌, ◌≡◌, ◌≢◌, ◌⊎◌, inl, inr, refl, ◌∙◌, ap, List, [], ◌∷◌,
  ◌++◌, arith, length, length-append, sym,
}
use wpi_operating_systems.Files.Disk.{Block}
use wpi_operating_systems.Files.Inodes.{
  Inode, word, set_word, words, set_words, word-set_word, word-set_word_other, read_inode,
  write_inode,
}

-- the bytes of a block
abbrev pub AllBytes : Block → Type 0
AllBytes b = (o : ℕ) → b o < 256

pub word-lt : (b : Block) (o : ℕ) → AllBytes b → word b o < 2 ^ 32
unfolding word
word-lt b o h = omega (arith, h o, h (o + 1), h (o + 2), h (o + 3))

set_word-AllBytes : (b : Block) (o v : ℕ) → AllBytes b → AllBytes (set_word b o v)
unfolding set_word
set_word-AllBytes b o v h = λ k. ground (arith, h k)

pub set_words-AllBytes :
    (b : Block) (o : ℕ) (vs : List ℕ) → AllBytes b → AllBytes (set_words b o vs)
unfolding set_words
set_words-AllBytes b o [] h = h
set_words-AllBytes b o (v ∷ vs) h =
    set_words-AllBytes (set_word b o v) (o + 4) vs (set_word-AllBytes b o v h)

-- Words before and behind the ones that are written.
word-set_words_before :
    (b : Block) (p o : ℕ) (vs : List ℕ) → p + 4 ≤ o → word (set_words b o vs) p ≡ word b p
unfolding set_words
word-set_words_before b p o [] h = refl
word-set_words_before b p o (v ∷ vs) h =
    word-set_words_before (set_word b o v) p (o + 4) vs (omega arith)
    ∙ word-set_word_other b p o v (omega arith)

word-set_word_behind : (b : Block) (p o v : ℕ) → o + 4 ≤ p → word (set_word b o v) p ≡ word b p
unfolding word set_word
word-set_word_behind b p o v h = ground arith

word-set_words_behind :
    (b : Block) (p o : ℕ) (vs : List ℕ)
    → o + 4 * length vs ≤ p
    → word (set_words b o vs) p ≡ word b p
unfolding set_words
word-set_words_behind b p o [] h = refl
word-set_words_behind b p o (v ∷ vs) h =
    word-set_words_behind (set_word b o v) p (o + 4) vs (omega arith)
    ∙ word-set_word_behind b p o v (omega arith)

abbrev pub AllWords : List ℕ → Type 0
AllWords [] = Unit {0}
AllWords (v ∷ vs) = (v < 2 ^ 32) × AllWords vs

-- The words that are written.
words-set_words :
    (b : Block) (o : ℕ) (vs : List ℕ) → AllWords vs → words (length vs) (set_words b o vs) o ≡ vs
unfolding words set_words
words-set_words b o [] h = refl
words-set_words b o (v ∷ vs) (h, hs) = rw (
  word-set_words_before (set_word b o v) o (o + 4) vs (omega arith),
  word-set_word b o v h,
  words-set_words (set_word b o v) (o + 4) vs hs,
)

-- An inode as the eight words of its slot.
abbrev inode_of : List ℕ → Inode → Inode
inode_of (v ∷ z ∷ d0 ∷ d1 ∷ d2 ∷ d3 ∷ d4 ∷ i ∷ []) other = record {
  valid = v;
  size = z;
  direct = d0 ∷ d1 ∷ d2 ∷ d3 ∷ d4 ∷ [];
  indirect = i;
}
inode_of ws other = other

read_inode-words :
    (b : Block) (j : ℕ) (other : Inode) → read_inode b j ≡ inode_of (words 8 b (j * 32)) other
unfolding read_inode words
read_inode-words b j other =
    let e : j * 32 + 4 + 4 ≡ j * 32 + 8 = omega arith in
    let f : j * 32 + 8 + 4 + 4 + 4 + 4 + 4 ≡ j * 32 + 28 = omega arith in rw (e, f)

-- five direct pointers, and words of 32 bits
pub record IsInode (i : Inode) : Type 0 where
  pub pointers : length i.direct ≡ 5
  pub fits : AllWords (i.valid ∷ i.size ∷ (i.direct ++ (i.indirect ∷ [])))

-- the words of an inode
abbrev slot : Inode → List ℕ
slot i = i.valid ∷ i.size ∷ (i.direct ++ (i.indirect ∷ []))

inode_of-slot :
    (i : Inode) (ds : List ℕ)
    → length ds ≡ 5
    → inode_of (slot (record i { direct = ds })) i ≡ record i { direct = ds }
inode_of-slot i [] h = absurd (omega arith)
inode_of-slot i (d0 ∷ []) h = absurd (omega arith)
inode_of-slot i (d0 ∷ d1 ∷ []) h = absurd (omega arith)
inode_of-slot i (d0 ∷ d1 ∷ d2 ∷ []) h = absurd (omega arith)
inode_of-slot i (d0 ∷ d1 ∷ d2 ∷ d3 ∷ []) h = absurd (omega arith)
inode_of-slot i (d0 ∷ d1 ∷ d2 ∷ d3 ∷ d4 ∷ []) h = refl
inode_of-slot i (d0 ∷ d1 ∷ d2 ∷ d3 ∷ d4 ∷ d5 ∷ ds) h = absurd (omega arith)

pub read_inode-write_inode :
    (b : Block) (j : ℕ) (i : Inode) → IsInode i → read_inode (write_inode b j i) j ≡ i
unfolding write_inode
read_inode-write_inode b j i h =
    let eight : length (slot i) ≡ 8 =
      omega (arith, length-append i.direct (i.indirect ∷ []), h.pointers) in
    read_inode-words (write_inode b j i) j i
    ∙ ap (λ n. inode_of (words n (set_words b (j * 32) (slot i)) (j * 32)) i) (sym eight)
    ∙ ap (λ ws. inode_of ws i) (words-set_words b (j * 32) (slot i) h.fits)
    ∙ inode_of-slot i i.direct h.pointers

words_same :
    (n : ℕ) (b c : Block) (o : ℕ)
    → ((p : ℕ) → o ≤ p → p + 4 ≤ o + 4 * n → word c p ≡ word b p)
    → words n c o ≡ words n b o
unfolding words
words_same zero b c o h = refl
words_same (suc n) b c o h = rw (
  h o (omega arith) (omega arith),
  words_same n b c (o + 4) (λ p l m. h p (omega arith) (omega arith)),
)

pub read_inode-write_inode_other :
    (b : Block) (j k : ℕ) (i : Inode)
    → length i.direct ≡ 5
    → k ≢ j
    → read_inode (write_inode b j i) k ≡ read_inode b k
unfolding write_inode
read_inode-write_inode_other b j k i h ne =
    let eight : length (slot i) ≡ 8 = omega (arith, length-append i.direct (i.indirect ∷ []), h) in
    let c : Block = set_words b (j * 32) (slot i) in
    let same : words 8 c (k * 32) ≡ words 8 b (k * 32) =
      words_same 8 b c (k * 32) (λ p l m. outside p l m eight (apart k j ne)) in
    read_inode-words c k i ∙ ap (λ ws. inode_of ws i) same ∙ sym (read_inode-words b k i)
  where
    apart : (k j : ℕ) → k ≢ j → (k + 1 ≤ j) ⊎ (j + 1 ≤ k)
    apart k j ne = grind arith

    outside :
        (p : ℕ)
        → k * 32 ≤ p
        → p + 4 ≤ k * 32 + 32
        → length (slot i) ≡ 8
        → (k + 1 ≤ j) ⊎ (j + 1 ≤ k)
        → word (set_words b (j * 32) (slot i)) p ≡ word b p
    outside p l m e (inl less) = word-set_words_before b p (j * 32) (slot i) (omega arith)
    outside p l m e (inr more) = word-set_words_behind b p (j * 32) (slot i) (omega (arith, e))

-- What `read_inode` gives.
words-AllWords : (n : ℕ) (b : Block) (o : ℕ) → AllBytes b → AllWords (words n b o)
unfolding words
words-AllWords zero b o h = tt
words-AllWords (suc n) b o h = (word-lt b o h, words-AllWords n b (o + 4) h)

AllWords-append : (vs ws : List ℕ) → AllWords vs → AllWords ws → AllWords (vs ++ ws)
AllWords-append [] ws h k = k
AllWords-append (v ∷ vs) ws (h, hs) k = (h, AllWords-append vs ws hs k)

length-words : (n : ℕ) (b : Block) (o : ℕ) → length (words n b o) ≡ n
unfolding words
length-words zero b o = refl
length-words (suc n) b o = ap suc (length-words n b (o + 4))

pub read_inode-IsInode : (b : Block) (j : ℕ) → AllBytes b → IsInode (read_inode b j)
unfolding read_inode
read_inode-IsInode b j h = record {
  pointers = length-words 5 b (j * 32 + 8);
  fits = (
    word-lt b (j * 32) h,
    (
      word-lt b (j * 32 + 4) h,
      AllWords-append (words 5 b (j * 32 + 8)) (word b (j * 32 + 28) ∷ [])
          (words-AllWords 5 b (j * 32 + 8) h) (word-lt b (j * 32 + 28) h, tt),
    ),
  );
}

pub write_inode-AllBytes :
    (b : Block) (j : ℕ) (i : Inode) → AllBytes b → AllBytes (write_inode b j i)
unfolding write_inode
write_inode-AllBytes b j i h = set_words-AllBytes b (j * 32) (slot i) h
