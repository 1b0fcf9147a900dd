-- ===== src/Shell/Builtins.antt =====
-- `builtIn` and `command`: the built-in commands, and the others in a process of their own.
-- The answers of the system are a parameter; the counter `calls` tells the calls apart, so the same
-- call can be answered in another way later. The working directory is the shell's `path`, as every
-- successful `chdir` is followed by `getcwd`; names are shorter than the arrays they are copied to.
use wpi_operating_systems.Base.{
  ℕ, ◌+◌, ℤ, pos, Bool, true, false, Option, none, some, List, [], ◌∷◌, ◌++◌, ◌||◌, ◌==◌,
  if◌then◌else◌, length, map,
}
use wpi_operating_systems.Shell.Text.{Text, space, slash, text_eq, after_slash, build_command}
use wpi_operating_systems.Shell.History.{History, show_history}
use wpi_operating_systems.Shell.Jobs.{
  Jobs, Event, text, too_many_arguments, no_such_directory, fork_failed, foreground, background,
  add_background_job, kill_job, list_jobs,
}

-- `fork` gives the number of the child, `none` where it fails. `wait` is the exit status of a
-- command, `none` where it did not exit by itself.
pub record Os : Type 0 where
  pub home : Option Text
  pub atoi : Text → ℤ
  pub chdir : ℕ → Text → Text → Option Text
  pub fork : ℕ → Option ℕ
  pub wait : ℕ → List Text → Option ℕ

pub record Shell : Type 0 where
  pub path : Text
  pub shortened_path : Text
  pub jobs : Jobs
  pub history : History
  pub calls : ℕ

-- The status that `builtIn` or `command` returns, the shell afterwards, and what was done; `crash` is
-- a read through NULL.
pub data Reply : Type 0 where
  reply : ℕ → Shell → List Event → Reply
  crash : Reply

abbrev pub is_empty : Text → Bool
is_empty [] = true
is_empty (c ∷ cs) = false

abbrev pub root : Text
root = slash ∷ []

-- The directory in the prompt at the start and at home.
unfoldable pub shorten : Text → Text → Text
shorten path shortened = elim (after_slash path) [
  | none ↦ shortened
  | some name ↦ if is_empty name || (length path == length name + 1) then root else name
]

-- The directory in the prompt behind `cd dir`.
unfoldable pub shorten_to : Text → Text → Text → Text
shorten_to path shortened dir = elim (after_slash path) [
  | none ↦ shortened
  | some name ↦ if is_empty name then root else (if text_eq shortened name then dir else name)
]

abbrev pub called : Shell → Shell
called s = record s { calls = s.calls + 1 }

-- behind the `chdir` of `cd` alone, by the directory reached
unfoldable pub arrive_home : Shell → Option Text → Shell
arrive_home s none = called s
arrive_home s (some path) = record (called s) {
  path = path;
  shortened_path = shorten path s.shortened_path;
}

-- behind the `chdir` of `cd dir`
unfoldable pub arrive : Text → Shell → Option Text → Reply
arrive dir s none = reply 0 (called s) (no_such_directory dir ∷ [])
arrive dir s (some path) =
    reply 0
      (record (called s) { path = path; shortened_path = shorten_to path s.shortened_path dir }) []

module _ (os : Os) where
  unfoldable pub cd_home : Shell → Shell
  cd_home s = elim os.home [ none ↦ s | some home ↦ arrive_home s (os.chdir s.calls s.path home) ]

  -- by the words behind `cd`
  unfoldable pub cd : List Text → Shell → Reply
  cd [] s = reply 0 (cd_home s) []
  cd (dir ∷ []) s = arrive dir s (os.chdir s.calls s.path dir)
  cd (dir ∷ more ∷ words) s = reply 0 s (too_many_arguments ∷ [])

  -- by the words behind `kill`
  unfoldable pub kill : List Text → Shell → Reply
  kill [] s = crash
  kill (job ∷ words) s =
      let (jobs, out) = kill_job (os.atoi job) s.jobs in reply 0 (record s { jobs = jobs }) out

-- by the words behind `echo`
unfoldable pub echo : List Text → Text
echo [] = []
echo (w ∷ []) = w
echo (w ∷ v ∷ words) = w ++ (space ∷ echo (v ∷ words))

-- `checkls`
unfoldable pub base_name : Text → Text
base_name w = elim (after_slash w) [ none ↦ w | some name ↦ name ]

pub data Builtin : Type 0 where
  is_cd : Builtin
  is_jobs : Builtin
  is_kill : Builtin
  is_pwd : Builtin
  is_echo : Builtin
  is_history : Builtin

-- The names of the built-in commands, by their characters.
unfoldable pub which : Text → Option Builtin
which w =
    if text_eq w (99 ∷ 100 ∷ [])
    then some is_cd
    else if text_eq w (106 ∷ 111 ∷ 98 ∷ 115 ∷ [])
    then some is_jobs
    else if text_eq w (107 ∷ 105 ∷ 108 ∷ 108 ∷ [])
    then some is_kill
    else if text_eq w (112 ∷ 119 ∷ 100 ∷ [])
    then some is_pwd
    else if text_eq w (101 ∷ 99 ∷ 104 ∷ 111 ∷ [])
    then some is_echo
    else if text_eq w (104 ∷ 105 ∷ 115 ∷ 116 ∷ 111 ∷ 114 ∷ 121 ∷ [])
    then some is_history
    else none

module _ (os : Os) where
  -- one of the built-in commands, by the words behind its name
  unfoldable pub run_builtin : Builtin → List Text → Shell → Reply
  run_builtin is_cd words s = cd os words s
  run_builtin is_jobs words s = reply 0 s (list_jobs s.jobs.slots)
  run_builtin is_kill words s = kill os words s
  run_builtin is_pwd words s = reply 0 s (text s.path ∷ [])
  run_builtin is_echo words s = reply 0 s (text (echo words) ∷ [])
  run_builtin is_history words s = reply 0 s (map text (show_history s.history))

  unfoldable pub dispatch : Option Builtin → List Text → Shell → Reply
  dispatch none words s = reply 1 s []
  dispatch (some b) words s = run_builtin b words s

  unfoldable pub built_in : List Text → Shell → Reply
  built_in [] s = crash
  built_in (w ∷ words) s = dispatch (which (base_name w)) words s

-- `waitpid`: the child ran the command, or printed that it could not and exited with 1.
unfoldable pub waited : List Text → Shell → Option ℕ → Reply
waited words s none = reply 1 (called s) (foreground words ∷ [])
waited words s (some status) = reply status (called s) (foreground words ∷ [])

unfoldable pub keep_child : ℕ → List Text → Shell → Reply
keep_child pid words s =
    let (jobs, out) = add_background_job (pos pid) (build_command words) s.jobs in
    reply 0 (record (called s) { jobs = jobs }) (background words ∷ out)

module _ (os : Os) where
  -- behind `fork`
  unfoldable pub forked : List Text → Bool → Shell → Option ℕ → Reply
  forked words in_background s none = reply 0 (called s) (fork_failed ∷ [])
  forked words in_background s (some pid) =
      if in_background then keep_child pid words s else waited words s (os.wait s.calls words)

  unfoldable pub command : List Text → Bool → Shell → Reply
  command words in_background s = forked words in_background s (os.fork s.calls)
