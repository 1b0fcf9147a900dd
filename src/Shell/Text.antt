-- ===== src/Shell/Text.antt =====
-- Strings of the shell as lists of characters, without the zero at the end: comparison, the words of
-- a line, and the command string of a background job.
pub mod Words
use wpi_operating_systems.Base.{
  ℕ, ◌+◌, ◌-◌, Bool, true, false, Option, none, some, List, [], ◌∷◌, ◌++◌, ◌&&◌, ltb, ◌==◌, not,
  if◌then◌else◌, length, take,
}

abbrev pub Text : Type 0
Text = List ℕ

abbrev pub space : ℕ
space = 32

abbrev pub slash : ℕ
slash = 47

abbrev pub newline : ℕ
newline = 10

-- `strcmp(a, b) == 0`
abbrev pub text_eq : Text → Text → Bool
text_eq [] [] = true
text_eq [] (d ∷ b) = false
text_eq (c ∷ a) [] = false
text_eq (c ∷ a) (d ∷ b) = (c == d) && text_eq a b

-- `arguments[strcspn(arguments, "\n")] = '\0'`
unfoldable pub chomp : Text → Text
chomp [] = []
chomp (c ∷ cs) = let rest = chomp cs in if c == newline then [] else c ∷ rest

-- a character in front of a text whose words are `words`
abbrev pub add_char : ℕ → Text → List Text → List Text
add_char c [] words = (c ∷ []) ∷ words
add_char c (d ∷ cs) [] = (c ∷ []) ∷ []
add_char c (d ∷ cs) (w ∷ words) = if d == space then (c ∷ []) ∷ w ∷ words else (c ∷ w) ∷ words

-- The words that `strtok` returns for the delimiter `" "`, one after the other.
unfoldable pub tokens : Text → List Text
tokens [] = []
tokens (c ∷ cs) = let rest = tokens cs in if c == space then rest else add_char c cs rest

-- `newArr`, which has room for 63 words and NULL.
unfoldable pub split_line : Text → List Text
split_line line = take 63 (tokens line)

-- `strncat(cmd + offset, s, remaining - 1)` on an array of 128 characters
unfoldable pub strncat : Text → Text → Text
strncat cmd s = cmd ++ take (127 - length cmd) s

-- The loop that builds the command string, behind the first word.
unfoldable pub add_words : Text → List Text → Text
add_words cmd [] = cmd
add_words cmd (w ∷ words) =
    let rest = add_words (strncat (strncat cmd (space ∷ [])) w) words in
    if ltb 1 (128 - length cmd) then rest else cmd

unfoldable pub build_command : List Text → Text
build_command [] = []
build_command (w ∷ words) = add_words (strncat [] w) words

-- The text behind the last slash: `strrchr(s, '/') + 1`, or `none` for NULL.
unfoldable pub after_slash : Text → Option Text
after_slash [] = none
after_slash (c ∷ cs) = elim (after_slash cs) [
  | some t ↦ some t
  | none ↦ if c == slash then some cs else none
]
