-- ===== src/Shell/Lines/Tables.antt =====
-- The table of jobs in a session: what the lines do to it.
use wpi_operating_systems.Base.{
  ℕ, suc, ◌+◌, ℤ, pos, negsuc, ◌≤◌, subst, Bool, true, false, Option, none, some, List, [], ◌∷◌,
  ◌==◌, Bool-cases, inl, inr, arith,
}
use wpi_operating_systems.Shell.Text.{Text, text_eq, chomp, split_line, build_command}
use wpi_operating_systems.Shell.Jobs.{Event, background, check_background_jobs}
use wpi_operating_systems.Shell.Jobs.Ids.{
  Reach, empty, added, checked, killed, IsTable, Reach-IsTable,
}
use wpi_operating_systems.Shell.Builtins.{
  Os, Shell, Reply, reply, crash, Builtin, is_cd, is_jobs, is_kill, is_pwd, is_echo, is_history, cd,
  cd_home, arrive_home, arrive, kill, dispatch, run_builtin, built_in, which, base_name, waited,
  forked, command,
}
use wpi_operating_systems.Shell.Lines.{
  exit_word, Action, and_or, pipe, redirect, simple, parse, Outcome, next, exits, faults, after,
  before, or_command, run_command, runs_second, then_second, handle_and_or_commands, remember,
  remembered, keep_job, start_background, perform, strip_background, run_words, run_line,
  shell_round,
}
use wpi_operating_systems.Shell.Lines.Recorded.{Session, start, line}

-- The table is one that its operations lead to, with at most as many jobs as there were calls of the
-- system.
abbrev pub Fine : Shell → Type 0
Fine s = (n : ℕ) × Reach n s.jobs × (n ≤ s.calls)

abbrev Good : Reply → Type 0
Good (reply status s out) = Fine s
Good crash = Unit {0}

abbrev Goes : Outcome → Type 0
Goes (next s out) = Fine s
Goes (exits status) = Unit {0}
Goes faults = Unit {0}

after-Goes : (out : List Event) (r : Reply) → Good r → Goes (after out r)
after-Goes out (reply status s more) k = k
after-Goes out crash k = tt

before-Goes : (out : List Event) (o : Outcome) → Goes o → Goes (before out o)
before-Goes out (next s more) k = k
before-Goes out (exits status) k = tt
before-Goes out faults k = tt

remembered-Goes : (text : Text) (o : Outcome) → Goes o → Goes (remembered text o)
remembered-Goes text (next s out) k = k
remembered-Goes text (exits status) k = tt
remembered-Goes text faults k = tt

-- One more call changes nothing.
more_calls : {n m : ℕ} → n ≤ m → n ≤ m + 1
more_calls h = omega arith

module _ (os : Os) where
  cd-Good : (words : List Text) (s : Shell) → Fine s → Good (cd os words s)
  unfolding cd cd_home arrive arrive_home
  cd-Good [] s k = home os.home
    where
      reached : (o : Option Text) → Fine (arrive_home s o)
      reached none = (k.0, k.1, more_calls k.2)
      reached (some path) = (k.0, k.1, more_calls k.2)

      home :
          (o : Option Text)
          → Fine (elim o as (λ x. Shell) [
            | none ↦ s
            | some dir ↦ arrive_home s (os.chdir s.calls s.path dir)
          ])
      home none = k
      home (some dir) = reached (os.chdir s.calls s.path dir)
  cd-Good (dir ∷ []) s k = go (os.chdir s.calls s.path dir)
    where
      go : (o : Option Text) → Good (arrive dir s o)
      go none = (k.0, k.1, more_calls k.2)
      go (some path) = (k.0, k.1, more_calls k.2)
  cd-Good (dir ∷ more ∷ words) s k = k

  kill-Good : (words : List Text) (s : Shell) → Fine s → Good (kill os words s)
  unfolding kill
  kill-Good [] s k = tt
  kill-Good (w ∷ words) s k = (k.0, killed (os.atoi w) k.1, k.2)

  run_builtin-Good :
      (b : Builtin) (words : List Text) (s : Shell) → Fine s → Good (run_builtin os b words s)
  unfolding run_builtin
  run_builtin-Good is_cd words s k = cd-Good words s k
  run_builtin-Good is_jobs words s k = k
  run_builtin-Good is_kill words s k = kill-Good words s k
  run_builtin-Good is_pwd words s k = k
  run_builtin-Good is_echo words s k = k
  run_builtin-Good is_history words s k = k

  built_in-Good : (words : List Text) (s : Shell) → Fine s → Good (built_in os words s)
  unfolding built_in dispatch
  built_in-Good [] s k = tt
  built_in-Good (w ∷ words) s k = go (which (base_name w))
    where
      go : (o : Option Builtin) → Good (dispatch os o words s)
      go none = k
      go (some b) = run_builtin-Good b words s k

  command-Good : (words : List Text) (s : Shell) → Fine s → Good (command os words false s)
  unfolding command forked waited
  command-Good words s k = go (os.fork s.calls)
    where
      status : (o : Option ℕ) → Good (waited words s o)
      status none = (k.0, k.1, more_calls k.2)
      status (some n) = (k.0, k.1, more_calls k.2)

      go : (o : Option ℕ) → Good (forked os words false s o)
      go none = (k.0, k.1, more_calls k.2)
      go (some pid) = status (os.wait s.calls words)

  or_command-Good : (words : List Text) (r : Reply) → Good r → Good (or_command os words r)
  unfolding or_command
  or_command-Good words crash k = tt
  or_command-Good words (reply status s out) k = elim (Bool-cases (status == 0)) [
    | inl y ↦ rw y k
    | inr y ↦ rw y (command-Good words s k)
  ]

  run_command-Good : (words : List Text) (s : Shell) → Fine s → Good (run_command os words s)
  unfolding run_command
  run_command-Good words s k = or_command-Good words (built_in os words s) (built_in-Good words s k)

  then_second-Goes :
      (second : List Text) (is_and : Bool) (r : Reply)
      → Good r
      → Goes (then_second os second is_and r)
  unfolding then_second
  then_second-Goes second is_and crash k = tt
  then_second-Goes second is_and (reply status s out) k =
      elim (Bool-cases (runs_second is_and status)) [
        | inl y ↦ rw y (after-Goes out (run_command os second s) (run_command-Good second s k))
        | inr y ↦ rw y k
      ]

  start_background-Goes :
      (words : List Text) (s : Shell) → Fine s → Goes (start_background os words s)
  unfolding start_background keep_job
  start_background-Goes words s k = go (os.fork s.calls)
    where
      kept : (pid : ℤ) (forked : List Event) → Goes (keep_job pid forked words s)
      kept pid forked = (suc k.0, added pid (build_command words) k.1, omega (arith, k.2))

      go :
          (o : Option ℕ)
          → Goes (elim o as (λ x. Outcome) [
            | none ↦ keep_job (negsuc 0) [] words s
            | some pid ↦ keep_job (pos pid) (background words ∷ []) words s
          ])
      go none = kept (negsuc 0) []
      go (some pid) = kept (pos pid) (background words ∷ [])

  perform-Goes :
      (a : Action) (in_background : Bool) (text : Text) (s : Shell)
      → Fine s
      → Goes (perform os a in_background text s)
  unfolding perform handle_and_or_commands
  perform-Goes (and_or first second is_and) in_background text s k =
      remembered-Goes text (then_second os second is_and (run_command os first s))
        (then_second-Goes second is_and (run_command os first s) (run_command-Good first s k))
  perform-Goes (pipe first second) in_background text s k = (k.0, k.1, more_calls k.2)
  perform-Goes (redirect words file append) in_background text s k = (k.0, k.1, more_calls k.2)
  perform-Goes (simple words) true text s k = start_background-Goes words (remember text s) k
  perform-Goes (simple words) false text s k =
      after-Goes [] (run_command os words (remember text s))
        (run_command-Good words (remember text s) k)

  run_words-Goes :
      (words : List Text) (in_background : Bool) (text : Text) (s : Shell)
      → Fine s
      → Goes (run_words os words in_background text s)
  unfolding run_words
  run_words-Goes [] in_background text s k = k
  run_words-Goes (w ∷ words) in_background text s k = elim (Bool-cases (text_eq w exit_word)) [
    | inl y ↦ rw y tt
    | inr y ↦ rw y (perform-Goes (parse (w ∷ words)) in_background text s k)
  ]

  shell_round-Goes :
      (pids : List ℕ) (arguments : Text) (s : Shell)
      → Fine s
      → Goes (shell_round os pids (some arguments) s)
  unfolding shell_round run_line
  shell_round-Goes pids arguments s k =
      let t : Shell = record s { jobs = (check_background_jobs pids s.jobs).0 } in
      before-Goes _ (run_line os arguments t) (
        run_words-Goes (strip_background (split_line (chomp arguments))).0
          (strip_background (split_line (chomp arguments))).1 (chomp arguments) t
          (k.0, checked pids k.1, k.2))

Session-Fine : (os : Os) (past : List Text) (s : Shell) → Session os past s → Fine s
Session-Fine os past s (start path junk) = (0, empty, omega arith)
Session-Fine os past s (line {s = t} pids arguments session e) =
    subst Goes e (shell_round-Goes os pids arguments t (Session-Fine os _ t session))

-- In every session with at most 255 calls of the system to start a command or change the directory,
-- no two running jobs have the same number, and `activeJobs` counts every running job.
pub Session-IsTable :
    (os : Os) (past : List Text) (s : Shell)
    → Session os past s
    → s.calls ≤ 255
    → (n : ℕ) × IsTable n s.jobs
Session-IsTable os past s session few =
    let (n, reach, below) = Session-Fine os past s session in
    (n, Reach-IsTable n s.jobs reach (omega arith))
