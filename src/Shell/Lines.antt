-- ===== src/Shell/Lines.antt =====
-- One line of input: how the words are split at an operator, and what is run. A pipe and a redirection
-- are one event each: their processes are the system's. The echo of lines that do not come from a
-- terminal is left out.
pub mod Operators
pub mod Recorded
pub mod Tables
use wpi_operating_systems.Base.{
  ℕ, zero, suc, ◌+◌, ◌-◌, ℤ, pos, negsuc, Bool, true, false, Option, none, some, List, [], ◌∷◌,
  ◌++◌, ◌&&◌, ◌||◌, ◌==◌, not, if◌then◌else◌, take, drop, get_elem?,
}
use wpi_operating_systems.Shell.Text.{Text, text_eq, chomp, split_line, build_command}
use wpi_operating_systems.Shell.History.{no_history, add_history}
use wpi_operating_systems.Shell.Jobs.{
  no_jobs, Event, prompt, background, piped, redirected, add_background_job, check_background_jobs,
}
use wpi_operating_systems.Shell.Builtins.{
  Os, Shell, Reply, reply, crash, shorten, called, built_in, command,
}

-- The operators, by their characters.
abbrev pub and_sign : Text
and_sign = 38 ∷ 38 ∷ []

abbrev pub or_sign : Text
or_sign = 124 ∷ 124 ∷ []

abbrev pub pipe_sign : Text
pipe_sign = 124 ∷ []

abbrev pub write_sign : Text
write_sign = 62 ∷ []

abbrev pub append_sign : Text
append_sign = 62 ∷ 62 ∷ []

abbrev pub background_sign : Text
background_sign = 38 ∷ []

abbrev pub exit_word : Text
exit_word = 101 ∷ 120 ∷ 105 ∷ 116 ∷ []

-- Each search goes over the words from `j` on. The Boolean is `isAnd` or `shouldAppend`.
unfoldable pub find_and_or : ℕ → List Text → Option (ℕ × Bool)
find_and_or j [] = none
find_and_or j (w ∷ words) =
    let rest = find_and_or (j + 1) words in
    if text_eq w and_sign
    then some (j, true)
    else if text_eq w or_sign
    then some (j, false)
    else rest

unfoldable pub find_redirect : ℕ → List Text → Option (ℕ × Bool)
find_redirect j [] = none
find_redirect j (w ∷ words) =
    let rest = find_redirect (j + 1) words in
    if text_eq w write_sign
    then some (j, false)
    else if text_eq w append_sign
    then some (j, true)
    else rest

unfoldable pub find_pipe : ℕ → List Text → Option ℕ
find_pipe j [] = none
find_pipe j (w ∷ words) =
    let rest = find_pipe (j + 1) words in if text_eq w pipe_sign then some j else rest

-- The shell before its first line; `junk` is what the array of the prompt holds where `getcwd` has no
-- slash.
abbrev pub start_shell : Text → Text → Shell
start_shell path junk = record {
  path = path;
  shortened_path = shorten path junk;
  jobs = no_jobs;
  history = no_history;
  calls = 0;
}

-- What a line asks for.
pub data Action : Type 0 where
  and_or : List Text → List Text → Bool → Action
  pipe : List Text → List Text → Action
  redirect : List Text → Option Text → Bool → Action
  simple : List Text → Action

-- The searches start at the second word, and the first operator that is found splits the line.
unfoldable pub parse : List Text → Action
parse words = elim (find_and_or 1 (drop 1 words)) [
  | some (j, is_and) ↦ and_or (take j words) (drop (j + 1) words) is_and
  | none ↦ elim (find_redirect 1 (drop 1 words)) [
    | some (j, append) ↦ redirect (take j words) (get_elem? words (j + 1)) append
    | none ↦ elim (find_pipe 1 (drop 1 words)) [
      | some j ↦ pipe (take j words) (drop (j + 1) words)
      | none ↦ simple words
    ]
  ]
]

-- A line leads to the next one, or ends the shell.
pub data Outcome : Type 0 where
  next : Shell → List Event → Outcome
  exits : ℕ → Outcome
  faults : Outcome

-- What was done before goes in front.
abbrev pub after : List Event → Reply → Outcome
after out (reply status s more) = next s (out ++ more)
after out crash = faults

abbrev pub before : List Event → Outcome → Outcome
before out (next s more) = next s (out ++ more)
before out (exits status) = exits status
before out faults = faults

-- The parent's part of a line with `&` behind it.
unfoldable pub keep_job : ℤ → List Event → List Text → Shell → Outcome
keep_job pid forked words s =
    let (jobs, out) = add_background_job pid (build_command words) s.jobs in
    next (record (called s) { jobs = jobs }) (forked ++ out)

-- `shouldRunSecond`
abbrev pub runs_second : Bool → ℕ → Bool
runs_second is_and status = (is_and && (status == 0)) || (not is_and && not (status == 0))

abbrev pub remember : Text → Shell → Shell
remember line s = record s { history = add_history s.history line }

-- A line's outcome with the line in the history.
abbrev pub remembered : Text → Outcome → Outcome
remembered line (next s out) = next (remember line s) out
remembered line (exits status) = exits status
remembered line faults = faults

module _ (os : Os) where
  -- behind `builtIn`: the command in a process of its own if it is not a built-in one
  unfoldable pub or_command : List Text → Reply → Reply
  or_command words crash = crash
  or_command words (reply status s out) =
      if not (status == 0) then command os words false s else reply 0 s out

  unfoldable pub run_command : List Text → Shell → Reply
  run_command words s = or_command words (built_in os words s)

  -- behind the first command
  unfoldable pub then_second : List Text → Bool → Reply → Outcome
  then_second second is_and crash = faults
  then_second second is_and (reply status s out) =
      if runs_second is_and status then after out (run_command second s) else next s out

  unfoldable pub handle_and_or_commands : List Text → List Text → Bool → Shell → Outcome
  handle_and_or_commands first second is_and s = then_second second is_and (run_command first s)

  -- A line without an operator and with `&` behind it; the child runs the built-in commands too, on a
  -- copy of the shell. A failed `fork` gives -1.
  unfoldable pub start_background : List Text → Shell → Outcome
  start_background words s = elim (os.fork s.calls) [
    | none ↦ keep_job (negsuc 0) [] words s
    | some pid ↦ keep_job (pos pid) (background words ∷ []) words s
  ]

  unfoldable pub perform : Action → Bool → Text → Shell → Outcome
  perform (and_or first second is_and) in_background line s =
      remembered line (handle_and_or_commands first second is_and s)
  perform (pipe first second) in_background line s = next (called s) (piped first second ∷ [])
  perform (redirect words file append) in_background line s =
      next (called s) (redirected words file append ∷ [])
  perform (simple words) in_background line s =
      let t = remember line s in
      if in_background then start_background words t else after [] (run_command words t)

-- All words but the last, and whether the last one is `&`.
unfoldable pub strip_background : List Text → List Text × Bool
strip_background [] = ([], false)
strip_background (w ∷ []) = if text_eq w background_sign then ([], true) else (w ∷ [], false)
strip_background (w ∷ v ∷ words) =
    let (rest, found) = strip_background (v ∷ words) in (w ∷ rest, found)

module _ (os : Os) where
  -- the words of a line, less `&`
  unfoldable pub run_words : List Text → Bool → Text → Shell → Outcome
  run_words [] in_background line s = next s []
  run_words (w ∷ words) in_background line s =
      if text_eq w exit_word then exits 0 else perform os (parse (w ∷ words)) in_background line s

  -- the words of the line that `fgets` read
  unfoldable pub run_line : Text → Shell → Outcome
  run_line arguments s =
      let line = chomp arguments in
      let (words, in_background) = strip_background (split_line line) in
      run_words words in_background line s

  -- One round of the loop: the children that `waitpid` names, and the line that `fgets` reads, `none`
  -- at the end of the input.
  unfoldable pub shell_round : List ℕ → Option Text → Shell → Outcome
  shell_round pids none s = exits 1
  shell_round pids (some arguments) s =
      let (jobs, done) = check_background_jobs pids s.jobs in
      let t = record s { jobs = jobs } in
      before (done ++ (prompt t.shortened_path ∷ [])) (run_line arguments t)
