-- ===== src/Shell/Text/Words.antt =====
-- The words of a command string are the words that it was built from.
use wpi_operating_systems.Base.{
  ℕ, zero, suc, ◌+◌, ◌-◌, ◌≤◌, ◌<◌, ◌≡◌, refl, sym, ◌∙◌, ap, true, false, Bool-cases, inl, inr,
  List, [], ◌∷◌, ◌++◌, append_assoc, append-nil, ltb, ◌==◌, arith, length, length-append, take,
}
use wpi_operating_systems.Shell.Text.{
  Text, space, tokens, add_char, strncat, add_words, build_command, split_line,
}

-- no space
abbrev pub Spaceless : Text → Type 0
Spaceless [] = Unit {0}
Spaceless (c ∷ cs) = ((c == space) ≡ false) × Spaceless cs

-- Words: not empty, and without a space.
abbrev pub AllWords : List Text → Type 0
AllWords [] = Unit {0}
AllWords (w ∷ words) = ((0 < length w) × Spaceless w) × AllWords words

-- Words with one space between them.
abbrev pub spaced : List Text → Text
spaced [] = []
spaced (w ∷ []) = w
spaced (w ∷ v ∷ words) = w ++ (space ∷ spaced (v ∷ words))

-- A word in front of a space or of the end.
tokens_last : (w : Text) → 0 < length w → Spaceless w → tokens w ≡ w ∷ []
unfolding tokens
tokens_last [] h s = absurd (omega arith)
tokens_last (c ∷ []) h (p, s) = rw p refl
tokens_last (c ∷ d ∷ w) h (p, (q, s)) = rw (p, tokens_last (d ∷ w) (omega arith) (q, s), q) refl

tokens_more :
    (w rest : Text) → 0 < length w → Spaceless w → tokens (w ++ (space ∷ rest)) ≡ w ∷ tokens rest
unfolding tokens
tokens_more [] rest h s = absurd (omega arith)
tokens_more (c ∷ []) rest h (p, s) = rw p (one (tokens rest))
  where
    one : (ts : List Text) → add_char c (space ∷ rest) ts ≡ (c ∷ []) ∷ ts
    one [] = refl
    one (t ∷ ts) = refl
tokens_more (c ∷ d ∷ w) rest h (p, (q, s)) =
    rw (p, tokens_more (d ∷ w) rest (omega arith) (q, s), q) refl

pub tokens-spaced : (words : List Text) → AllWords words → tokens (spaced words) ≡ words
tokens-spaced [] h = unfold tokens in refl
tokens-spaced (w ∷ []) ((n, s), h) = tokens_last w n s
tokens-spaced (w ∷ v ∷ words) ((n, s), h) =
    tokens_more w (spaced (v ∷ words)) n s ∙ ap (λ t. w ∷ t) (tokens-spaced (v ∷ words) h)

-- The words of any line.
first_word :
    (c : ℕ) (cs : Text)
    → (c == space) ≡ false
    → AllWords (tokens cs)
    → AllWords (add_char c cs (tokens cs))
first_word c cs h all = go cs (tokens cs) all
  where
    go : (cs : Text) (ts : List Text) → AllWords ts → AllWords (add_char c cs ts)
    go [] ts all = ((omega arith, (h, tt)), all)
    go (d ∷ cs) [] all = ((omega arith, (h, tt)), tt)
    go (d ∷ cs) (t ∷ ts) ((n, s), all) = elim (Bool-cases (d == space)) [
      | inl y ↦ rw y ((omega arith, (h, tt)), ((n, s), all))
      | inr y ↦ rw y ((omega arith, (h, s)), all)
    ]

pub tokens-AllWords : (line : Text) → AllWords (tokens line)
unfolding tokens
tokens-AllWords [] = tt
tokens-AllWords (c ∷ cs) = elim (Bool-cases (c == space)) [
  | inl y ↦ rw y (tokens-AllWords cs)
  | inr y ↦ rw y (first_word c cs y (tokens-AllWords cs))
]

-- The length of the words with one space in front of each.
abbrev pub size : List Text → ℕ
size [] = 0
size (w ∷ words) = 1 + length w + size words

size_first : (c : ℕ) (cs : Text) (ts : List Text) → size (add_char c cs ts) ≤ 2 + size ts
size_first c [] ts = omega arith
size_first c (d ∷ cs) [] = omega arith
size_first c (d ∷ cs) (t ∷ ts) = ground arith

size_further :
    (c d : ℕ) (cs : Text) (ts : List Text) (n : ℕ)
    → (d == space) ≡ false
    → size ts ≤ 1 + n
    → 0 < n
    → size (add_char c (d ∷ cs) ts) ≤ 2 + n
size_further c d cs [] n y h some_char = omega arith
size_further c d cs (t ∷ ts) n y h some_char = rw y (omega arith)

size-tokens : (line : Text) → size (tokens line) ≤ suc (length line)
unfolding tokens
size-tokens [] = omega arith
size-tokens (c ∷ []) = ground arith
size-tokens (c ∷ d ∷ cs) =
    let ih = size-tokens (d ∷ cs) in
    let ih' = size-tokens cs in
    elim (Bool-cases (c == space)) [
      | inl y ↦ rw y (omega (arith, ih))
      | inr n ↦ elim (Bool-cases (d == space)) [
        | inl y ↦ rw (n, y) (omega (arith, size_first c (d ∷ cs) (tokens cs), ih'))
        | inr y ↦
            let rest : size (tokens (d ∷ cs)) ≤ 1 + suc (length cs) = omega (arith, ih) in
            let more =
              size_further c d cs (tokens (d ∷ cs)) (suc (length cs)) y rest (omega arith) in
            rw n (omega (arith, more))
      ]
    ]

size-take : (n : ℕ) (words : List Text) → size (take n words) ≤ size words
size-take zero words = omega arith
size-take (suc n) [] = omega arith
size-take (suc n) (w ∷ words) = omega (arith, size-take n words)

AllWords-take : (n : ℕ) (words : List Text) → AllWords words → AllWords (take n words)
AllWords-take zero words h = tt
AllWords-take (suc n) [] h = tt
AllWords-take (suc n) (w ∷ words) (h, all) = (h, AllWords-take n words all)

take_fits : (n : ℕ) (cs : Text) → length cs ≤ n → take n cs ≡ cs
take_fits zero [] h = refl
take_fits zero (c ∷ cs) h = absurd (omega arith)
take_fits (suc n) [] h = refl
take_fits (suc n) (c ∷ cs) h = ap (λ t. c ∷ t) (take_fits n cs (omega arith))

strncat_fits : (cmd s : Text) → length cmd + length s ≤ 127 → strncat cmd s ≡ cmd ++ s
unfolding strncat
strncat_fits cmd s h = ap (λ t. cmd ++ t) (take_fits (127 - length cmd) s (omega arith))

-- Words with a space in front of each.
abbrev tail : List Text → Text
tail [] = []
tail (w ∷ words) = space ∷ (w ++ tail words)

add_words-tail :
    (cmd : Text) (words : List Text)
    → length cmd + size words ≤ 127
    → add_words cmd words ≡ cmd ++ tail words
unfolding add_words
add_words-tail cmd [] h = sym (append-nil cmd)
add_words-tail cmd (w ∷ words) h =
    let room : (ltb 1 (128 - length cmd)) ≡ true = ground arith in
    let longer : length (cmd ++ (space ∷ [])) ≡ length cmd + 1 = length-append cmd (space ∷ []) in
    let word : length ((cmd ++ (space ∷ [])) ++ w) ≡ length cmd + 1 + length w =
      omega (arith, length-append (cmd ++ (space ∷ [])) w, longer) in
    rw
      (
        room,
        strncat_fits cmd (space ∷ []) (omega arith),
        strncat_fits (cmd ++ (space ∷ [])) w (omega (arith, longer)),
      )
      (add_words-tail ((cmd ++ (space ∷ [])) ++ w) words (omega (arith, word))
        ∙ append_assoc (cmd ++ (space ∷ [])) w (tail words)
        ∙ append_assoc cmd (space ∷ []) (w ++ tail words))

spaced-tail : (w : Text) (words : List Text) → spaced (w ∷ words) ≡ w ++ tail words
spaced-tail w [] = sym (append-nil w)
spaced-tail w (v ∷ words) = ap (λ t. w ++ (space ∷ t)) (spaced-tail v words)

build_command-spaced : (words : List Text) → size words ≤ 128 → build_command words ≡ spaced words
unfolding build_command
build_command-spaced [] h = refl
build_command-spaced (w ∷ words) h =
    rw (strncat_fits [] w (omega arith))
      (add_words-tail w words (omega arith) ∙ sym (spaced-tail w words))

-- The command string that is kept for a background job has the words of the line, for every line
-- that `fgets` can read, of 127 characters at most.
pub split_line-build_command :
    (line : Text)
    → length line ≤ 127
    → split_line (build_command (split_line line)) ≡ split_line line
unfolding split_line
split_line-build_command line h =
    let words : List Text = take 63 (tokens line) in
    ap (take 63) (
      ap tokens
        (build_command-spaced words (omega (arith, size-take 63 (tokens line), size-tokens line)))
      ∙ tokens-spaced words (AllWords-take 63 (tokens line) (tokens-AllWords line)))
    ∙ take_twice 63 (tokens line)
  where
    take_twice : (n : ℕ) (ws : List Text) → take n (take n ws) ≡ take n ws
    take_twice zero ws = refl
    take_twice (suc n) [] = refl
    take_twice (suc n) (w ∷ ws) = ap (λ t. w ∷ t) (take_twice n ws)
