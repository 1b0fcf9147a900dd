-- ===== src/Utilities/Wgrep/Selects.antt =====
-- wgrep prints the lines that contain the search term.
use wpi_operating_systems.Base.{ℕ, ◌≡◌, ◌<◌, length, ◌⊎◌, false, List, [], ◌∷◌, ◌++◌, ◌==◌, map}
use wpi_operating_systems.Compress.Wzip.Encodes.{flatten}
use wpi_operating_systems.Utilities.Wgrep.{get_lines, c_string}

-- `term` stands somewhere in `text`.
abbrev pub Contains : List ℕ → List ℕ → Type 0
Contains text term = (before : List ℕ) × (behind : List ℕ) × (text ≡ before ++ (term ++ behind))

-- `lines` are taken into `out` where they contain the term, and only there.
pub data Selects (term : List ℕ) : List (List ℕ) → List ℕ → Type 0 where
  end : Selects term [] []
  taken :
      {lines : List (List ℕ)} {out : List ℕ} (l : List ℕ)
      → Contains l term
      → Selects term lines out
      → Selects term (l ∷ lines) (l ++ out)
  left :
      {lines : List (List ℕ)} {out : List ℕ} (l : List ℕ)
      → (Contains l term → ⊥)
      → Selects term lines out
      → Selects term (l ∷ lines) out

abbrev pub NoNewline : List ℕ → Type 0
NoNewline [] = Unit {0}
NoNewline (c ∷ cs) = ((c == 10) ≡ false) × NoNewline cs

-- A line ends with its newline; the last one may lack it, and then it is not empty.
abbrev pub IsLine : List ℕ → Type 0
IsLine l = (body : List ℕ) × NoNewline body × (l ≡ body ++ (10 ∷ []))

abbrev pub IsRest : List ℕ → Type 0
IsRest l = NoNewline l × (0 < length l)

abbrev pub AllLines : List (List ℕ) → Type 0
AllLines [] = Unit {0}
AllLines (l ∷ []) = IsLine l ⊎ IsRest l
AllLines (l ∷ m ∷ lines) = IsLine l × AllLines (m ∷ lines)

-- The strings of the lines of some files.
abbrev pub all_lines : List (List ℕ) → List (List ℕ)
all_lines [] = []
all_lines (text ∷ files) = map c_string (get_lines text) ++ all_lines files

-- Each text is its lines.
abbrev pub AllSplit : List (List ℕ) → Type 0
AllSplit [] = Unit {0}
AllSplit (text ∷ files) =
    AllLines (get_lines text) × (flatten (get_lines text) ≡ text) × AllSplit files
