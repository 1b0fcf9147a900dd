-- ===== src/Shell/History.antt =====
-- The last ten lines: `addHistory`, and what the built-in `history` prints.
pub mod Recent
use wpi_operating_systems.Base.{
  ℕ, zero, suc, ◌+◌, ◌-◌, ◌%◌, List, [], ◌∷◌, ltb, if◌then◌else◌, set, get_or, replicate,
}
use wpi_operating_systems.Shell.Text.{Text}

-- `history` and `count`
pub record History : Type 0 where
  pub lines : List Text
  pub count : ℕ

abbrev pub no_history : History
no_history = record { lines = replicate 10 []; count = 0 }

-- Each line is copied to the place before it.
unfoldable pub copy_down : List Text → List Text
copy_down [] = []
copy_down (x ∷ []) = x ∷ []
copy_down (x ∷ y ∷ r) = y ∷ copy_down (y ∷ r)

unfoldable pub add_history : History → Text → History
add_history h command =
    if ltb h.count 10
    then record { lines = set h.lines h.count command; count = h.count + 1 }
    else record h { lines = set (copy_down h.lines) 9 command }

-- The lines that the loop of `history` prints, from `i` on, `n` of them.
unfoldable pub show_from : History → ℕ → ℕ → List Text
show_from h i zero = []
show_from h i (suc n) = get_or h.lines (i % 10) [] ∷ show_from h (i + 1) n

unfoldable pub show_history : History → List Text
show_history h =
    let start = if ltb 10 h.count then h.count - 10 else 0 in show_from h start (h.count - start)
