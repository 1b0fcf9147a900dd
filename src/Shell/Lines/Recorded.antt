-- ===== src/Shell/Lines/Recorded.antt =====
-- What the history holds after a session.
use wpi_operating_systems.Base.{
  ℕ, pos, negsuc, ◌≡◌, refl, sym, ap, subst, Bool, true, false, Option, none, some, List, [], ◌∷◌,
  ◌++◌, ◌==◌, Bool-cases, inl, inr,
}
use wpi_operating_systems.Shell.Text.{Text, text_eq, chomp, split_line}
use wpi_operating_systems.Shell.History.{History, add_history, show_history}
use wpi_operating_systems.Shell.History.Recent.{
  recent, add_all, Keeps, no_history-Keeps, add_all-Keeps, show_history-Keeps,
}
use wpi_operating_systems.Shell.Jobs.{Event, background, check_background_jobs}
use wpi_operating_systems.Shell.Builtins.{
  Os, Shell, Reply, reply, crash, Builtin, is_cd, is_jobs, is_kill, is_pwd, is_echo, is_history, cd,
  cd_home, arrive_home, arrive, kill, dispatch, run_builtin, built_in, which, base_name, waited,
  forked, command,
}
use wpi_operating_systems.Shell.Lines.{
  start_shell, exit_word, Action, and_or, pipe, redirect, simple, parse, Outcome, next, exits,
  faults, after, before, or_command, run_command, runs_second, then_second, handle_and_or_commands,
  remember, remembered, keep_job, start_background, perform, strip_background, run_words, run_line,
  shell_round,
}

-- What is kept of a line: pipes and redirections are not.
abbrev pub kept : Action → Text → List Text
kept (and_or first second is_and) line = line ∷ []
kept (pipe first second) line = []
kept (redirect words file append) line = []
kept (simple words) line = line ∷ []

abbrev kept_words : List Text → Text → List Text
kept_words [] line = []
kept_words (w ∷ words) line = kept (parse (w ∷ words)) line

-- What is kept of the characters that `fgets` read; a line without words is not.
abbrev pub kept_of : Text → List Text
kept_of arguments =
    let line = chomp arguments in kept_words (strip_background (split_line line)).0 line

-- The shell that a reply or an outcome leaves has the history `h`.
abbrev Has : History → Reply → Type 0
Has h (reply status s out) = s.history ≡ h
Has h crash = Unit {0}

abbrev Leaves : History → Outcome → Type 0
Leaves h (next s out) = s.history ≡ h
Leaves h (exits status) = Unit {0}
Leaves h faults = Unit {0}

after-Leaves : (h : History) (out : List Event) (r : Reply) → Has h r → Leaves h (after out r)
after-Leaves h out (reply status s more) k = k
after-Leaves h out crash k = tt

before-Leaves :
    (h : History) (out : List Event) (o : Outcome) → Leaves h o → Leaves h (before out o)
before-Leaves h out (next s more) k = k
before-Leaves h out (exits status) k = tt
before-Leaves h out faults k = tt

module _ (os : Os) where
  cd-Has : (words : List Text) (s : Shell) → Has s.history (cd os words s)
  unfolding cd cd_home arrive arrive_home
  cd-Has [] s = home os.home
    where
      reached : (o : Option Text) → (arrive_home s o).history ≡ s.history
      reached none = refl
      reached (some path) = refl

      home :
          (o : Option Text)
          → (elim o as (λ x. Shell) [
            | none ↦ s
            | some dir ↦ arrive_home s (os.chdir s.calls s.path dir)
          ]).history
            ≡ s.history
      home none = refl
      home (some dir) = reached (os.chdir s.calls s.path dir)
  cd-Has (dir ∷ []) s = go (os.chdir s.calls s.path dir)
    where
      go : (o : Option Text) → Has s.history (arrive dir s o)
      go none = refl
      go (some path) = refl
  cd-Has (dir ∷ more ∷ words) s = refl

  kill-Has : (words : List Text) (s : Shell) → Has s.history (kill os words s)
  unfolding kill
  kill-Has [] s = tt
  kill-Has (w ∷ words) s = refl

  run_builtin-Has :
      (b : Builtin) (words : List Text) (s : Shell) → Has s.history (run_builtin os b words s)
  unfolding run_builtin
  run_builtin-Has is_cd words s = cd-Has words s
  run_builtin-Has is_jobs words s = refl
  run_builtin-Has is_kill words s = kill-Has words s
  run_builtin-Has is_pwd words s = refl
  run_builtin-Has is_echo words s = refl
  run_builtin-Has is_history words s = refl

  built_in-Has : (words : List Text) (s : Shell) → Has s.history (built_in os words s)
  unfolding built_in dispatch
  built_in-Has [] s = tt
  built_in-Has (w ∷ words) s = go (which (base_name w))
    where
      go : (o : Option Builtin) → Has s.history (dispatch os o words s)
      go none = refl
      go (some b) = run_builtin-Has b words s

  -- in the foreground
  command-Has : (words : List Text) (s : Shell) → Has s.history (command os words false s)
  unfolding command forked waited
  command-Has words s = go (os.fork s.calls)
    where
      status : (o : Option ℕ) → Has s.history (waited words s o)
      status none = refl
      status (some n) = refl

      go : (o : Option ℕ) → Has s.history (forked os words false s o)
      go none = refl
      go (some pid) = status (os.wait s.calls words)

  or_command-Has :
      (h : History) (words : List Text) (r : Reply) → Has h r → Has h (or_command os words r)
  unfolding or_command
  or_command-Has h words crash k = tt
  or_command-Has h words (reply status s out) k = elim (Bool-cases (status == 0)) [
    | inl y ↦ rw y k
    | inr y ↦ rw y (subst (λ g. Has g (command os words false s)) k (command-Has words s))
  ]

  run_command-Has : (words : List Text) (s : Shell) → Has s.history (run_command os words s)
  unfolding run_command
  run_command-Has words s =
      or_command-Has s.history words (built_in os words s) (built_in-Has words s)

  then_second-Leaves :
      (h : History) (second : List Text) (is_and : Bool) (r : Reply)
      → Has h r
      → Leaves h (then_second os second is_and r)
  unfolding then_second
  then_second-Leaves h second is_and crash k = tt
  then_second-Leaves h second is_and (reply status s out) k =
      elim (Bool-cases (runs_second is_and status)) [
        | inl y ↦ rw y (
            after-Leaves h out (run_command os second s)
              (subst (λ g. Has g (run_command os second s)) k (run_command-Has second s)))
        | inr y ↦ rw y k
      ]

  remembered-Leaves :
      (h : History) (line : Text) (o : Outcome)
      → Leaves h o
      → Leaves (add_history h line) (remembered line o)
  remembered-Leaves h line (next s out) k = ap (λ g. add_history g line) k
  remembered-Leaves h line (exits status) k = tt
  remembered-Leaves h line faults k = tt

  start_background-Leaves :
      (words : List Text) (s : Shell) → Leaves s.history (start_background os words s)
  unfolding start_background keep_job
  start_background-Leaves words s = go (os.fork s.calls)
    where
      go :
          (o : Option ℕ)
          → Leaves s.history (elim o as (λ x. Outcome) [
            | none ↦ keep_job (negsuc 0) [] words s
            | some pid ↦ keep_job (pos pid) (background words ∷ []) words s
          ])
      go none = refl
      go (some pid) = refl

  perform-Leaves :
      (a : Action) (in_background : Bool) (line : Text) (s : Shell)
      → Leaves (add_all s.history (kept a line)) (perform os a in_background line s)
  unfolding perform handle_and_or_commands
  perform-Leaves (and_or first second is_and) in_background line s =
      remembered-Leaves s.history line (then_second os second is_and (run_command os first s)) (
        then_second-Leaves s.history second is_and (run_command os first s)
          (run_command-Has first s))
  perform-Leaves (pipe first second) in_background line s = refl
  perform-Leaves (redirect words file append) in_background line s = refl
  perform-Leaves (simple words) true line s = start_background-Leaves words (remember line s)
  perform-Leaves (simple words) false line s =
      after-Leaves (add_history s.history line) [] (run_command os words (remember line s))
        (run_command-Has words (remember line s))

  run_words-Leaves :
      (words : List Text) (in_background : Bool) (line : Text) (s : Shell)
      → Leaves (add_all s.history (kept_words words line)) (run_words os words in_background line s)
  unfolding run_words
  run_words-Leaves [] in_background line s = refl
  run_words-Leaves (w ∷ words) in_background line s = elim (Bool-cases (text_eq w exit_word)) [
    | inl y ↦ rw y tt
    | inr y ↦ rw y (perform-Leaves (parse (w ∷ words)) in_background line s)
  ]

  shell_round-Leaves :
      (pids : List ℕ) (arguments : Text) (s : Shell)
      → Leaves (add_all s.history (kept_of arguments)) (shell_round os pids (some arguments) s)
  unfolding shell_round run_line
  shell_round-Leaves pids arguments s =
      let t : Shell = record s { jobs = (check_background_jobs pids s.jobs).0 } in
      before-Leaves _ _ (run_line os arguments t) (
        run_words-Leaves (strip_background (split_line (chomp arguments))).0
          (strip_background (split_line (chomp arguments))).1 (chomp arguments) t)

-- A session: the rounds of the loop from the first one on, with what is kept of their lines.
pub data Session (os : Os) : List Text → Shell → Type 0 where
  start : (path junk : Text) → Session os [] (start_shell path junk)
  line :
      {past : List Text} {s t : Shell} {out : List Event} (pids : List ℕ) (arguments : Text)
      → Session os past s
      → shell_round os pids (some arguments) s ≡ next t out
      → Session os (past ++ kept_of arguments) t

Session-Keeps :
    (os : Os) (past : List Text) (s : Shell) → Session os past s → Keeps s.history (recent past)
Session-Keeps os past s (start path junk) = no_history-Keeps
Session-Keeps os past s (line {past = before_line} {s = t} {out = out} pids arguments session e) =
    subst (λ h. Keeps h (recent (before_line ++ kept_of arguments)))
      (sym (
        subst (Leaves (add_all t.history (kept_of arguments))) e
          (shell_round-Leaves os pids arguments t)))
      (add_all-Keeps t.history before_line (kept_of arguments)
        (Session-Keeps os before_line t session))

-- In every session the built-in `history` prints the last ten of the lines that were entered, the
-- oldest first, where lines with a pipe or a redirection and lines without words are left out.
pub show_history-Session :
    (os : Os) (past : List Text) (s : Shell)
    → Session os past s
    → show_history s.history ≡ recent past
show_history-Session os past s session =
    show_history-Keeps s.history (recent past) (Session-Keeps os past s session)
