-- ===== src/Shell/Lines/Operators.antt =====
-- Lines with `&&` and `||`: where they are split, and when the second command runs.
use wpi_operating_systems.Base.{
  ℕ, suc, ◌+◌, ◌≡◌, refl, ◌∙◌, ap, subst, Bool, true, false, Option, none, some, List, [], ◌∷◌,
  ◌++◌, ◌&&◌, ◌||◌, ◌==◌, not, if◌then◌else◌, arith, length, take, drop,
}
use wpi_operating_systems.Shell.Text.{Text, text_eq}
use wpi_operating_systems.Shell.Jobs.{Event}
use wpi_operating_systems.Shell.Builtins.{
  Os, Shell, Reply, reply, crash, Builtin, is_cd, is_jobs, is_kill, is_pwd, is_echo, is_history, cd,
  arrive, kill, dispatch, base_name, which, run_builtin, built_in,
}
use wpi_operating_systems.Shell.Lines.{
  and_sign, or_sign, find_and_or, and_or, parse, next, after, run_command, or_command, then_second,
  handle_and_or_commands, remembered, perform,
}

-- words that are not `&&` or `||`
abbrev pub AllPlain : List Text → Type 0
AllPlain [] = Unit {0}
AllPlain (w ∷ words) = ((text_eq w and_sign ≡ false) × (text_eq w or_sign ≡ false)) × AllPlain words

abbrev pub sign : Bool → Text
sign is_and = if is_and then and_sign else or_sign

find_and_or-append :
    (j : ℕ) (xs vs : List Text) (is_and : Bool)
    → AllPlain xs
    → find_and_or j (xs ++ (sign is_and ∷ vs)) ≡ some (j + length xs, is_and)
unfolding find_and_or
find_and_or-append j [] vs true h = let e : j ≡ j + 0 = omega arith in ap (λ n. some (n, true)) e
find_and_or-append j [] vs false h = let e : j ≡ j + 0 = omega arith in ap (λ n. some (n, false)) e
find_and_or-append j (x ∷ xs) vs is_and ((a, o), h) =
    let e : j + 1 + length xs ≡ j + suc (length xs) = omega arith in
    rw (a, o) (find_and_or-append (j + 1) xs vs is_and h ∙ ap (λ n. some (n, is_and)) e)

take_front : (xs ys : List Text) → take (length xs) (xs ++ ys) ≡ xs
take_front [] ys = refl
take_front (x ∷ xs) ys = ap (λ t. x ∷ t) (take_front xs ys)

drop_front :
    (xs : List Text) (y : Text) (ys : List Text) → drop (length xs + 1) (xs ++ (y ∷ ys)) ≡ ys
drop_front [] y ys = refl
drop_front (x ∷ xs) y ys =
    let e : suc (length xs) + 1 ≡ suc (length xs + 1) = omega arith in rw e (drop_front xs y ys)

-- The first operator behind the first word splits the line.
parse-and_or :
    (w : Text) (xs vs : List Text) (is_and : Bool)
    → AllPlain xs
    → parse ((w ∷ xs) ++ (sign is_and ∷ vs)) ≡ and_or (w ∷ xs) vs is_and
unfolding parse find_and_or
parse-and_or w xs vs is_and h =
    let place : 1 + length xs ≡ length (w ∷ xs) = omega arith in
    let at : find_and_or 1 (xs ++ (sign is_and ∷ vs)) ≡ some (length (w ∷ xs), is_and) =
      find_and_or-append 1 xs vs is_and h ∙ ap (λ n. some (n, is_and)) place in
    rw at (
      ap (λ t. and_or t (drop (length (w ∷ xs) + 1) ((w ∷ xs) ++ (sign is_and ∷ vs))) is_and)
        (take_front (w ∷ xs) (sign is_and ∷ vs))
      ∙ ap (λ t. and_or (w ∷ xs) t is_and) (drop_front (w ∷ xs) (sign is_and) vs))

module _ (os : Os) where
  -- A line with `&&` or `||` runs the command before the first of them, and the command behind it,
  -- which is all the rest of the line, if the first one returned 0 and the operator is `&&`, or
  -- another number and it is `||`. The line goes to the history at the end.
  pub perform-parse :
      (w : Text) (xs vs : List Text) (is_and in_background : Bool) (line : Text) (s : Shell)
      (status : ℕ) (t : Shell) (out : List Event)
      → AllPlain xs
      → run_command os (w ∷ xs) s ≡ reply status t out
      → perform os (parse ((w ∷ xs) ++ (sign is_and ∷ vs))) in_background line s
        ≡ remembered line (
            if (if is_and then status == 0 else not (status == 0))
            then after out (run_command os vs t)
            else next t out)
  unfolding perform handle_and_or_commands then_second
  perform-parse w xs vs is_and in_background line s status t out h e =
      ap (λ a. perform os a in_background line s) (parse-and_or w xs vs is_and h)
      ∙ ap (remembered line) (
          ap (then_second os vs is_and) e
          ∙ ap (λ b. if b then after out (run_command os vs t) else next t out)
              (same is_and (status == 0)))
    where
      same : (a b : Bool) → ((a && b) || (not a && not b)) ≡ (if a then b else not b)
      same true true = refl
      same true false = refl
      same false true = refl
      same false false = refl

  -- A built-in command returns 0, whatever it did.
  abbrev Zero : Reply → Type 0
  Zero (reply status t out) = status ≡ 0
  Zero crash = Unit {0}

  cd-Zero : (words : List Text) (s : Shell) → Zero (cd os words s)
  unfolding cd arrive
  cd-Zero [] s = refl
  cd-Zero (dir ∷ []) s = go (os.chdir s.calls s.path dir)
    where
      go : (o : Option Text) → Zero (arrive dir s o)
      go none = refl
      go (some path) = refl
  cd-Zero (dir ∷ more ∷ words) s = refl

  kill-Zero : (words : List Text) (s : Shell) → Zero (kill os words s)
  unfolding kill
  kill-Zero [] s = tt
  kill-Zero (w ∷ words) s = refl

  run_builtin-Zero : (b : Builtin) (words : List Text) (s : Shell) → Zero (run_builtin os b words s)
  unfolding run_builtin
  run_builtin-Zero is_cd words s = cd-Zero words s
  run_builtin-Zero is_jobs words s = refl
  run_builtin-Zero is_kill words s = kill-Zero words s
  run_builtin-Zero is_pwd words s = refl
  run_builtin-Zero is_echo words s = refl
  run_builtin-Zero is_history words s = refl

  -- Behind a built-in command that returns, as `cd` does for a directory that does not exist, the
  -- command behind `||` never runs, and the one behind `&&` always does.
  pub perform-built_in :
      (w : Text) (xs vs : List Text) (is_and in_background : Bool) (line : Text) (s : Shell)
      (b : Builtin) (status : ℕ) (t : Shell) (out : List Event)
      → AllPlain xs
      → which (base_name w) ≡ some b
      → run_builtin os b xs s ≡ reply status t out
      → perform os (parse ((w ∷ xs) ++ (sign is_and ∷ vs))) in_background line s
        ≡ remembered line (if is_and then after out (run_command os vs t) else next t out)
  unfolding run_command or_command built_in dispatch
  perform-built_in w xs vs is_and in_background line s b status t out h found e =
      let zero_status : status ≡ 0 = subst Zero e (run_builtin-Zero b xs s) in
      let first : run_command os (w ∷ xs) s ≡ reply 0 t out =
        ap (λ o. or_command os (w ∷ xs) (dispatch os o xs s)) found
        ∙ ap (or_command os (w ∷ xs)) (e ∙ ap (λ n. reply n t out) zero_status) in
      perform-parse w xs vs is_and in_background line s 0 t out h first
      ∙ ap (λ c. remembered line (if c then after out (run_command os vs t) else next t out))
          (same is_and)
    where
      same : (a : Bool) → (if a then true else false) ≡ a
      same true = refl
      same false = refl
