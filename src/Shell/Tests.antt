-- ===== src/Shell/Tests.antt =====
-- The shell on short lines. The characters: 97 `a`, 98 `b`, 99 `c`, 100 `d`, 32 a space.
use wpi_operating_systems.Base.{
  ℕ, pos, ◌≡◌, refl, true, false, none, some, [], ◌∷◌, ◌++◌, arith, replicate,
}
use wpi_operating_systems.Shell.Text.{Text, chomp, tokens, split_line, build_command, after_slash}
use wpi_operating_systems.Shell.Text.Words.{split_line-build_command}
use wpi_operating_systems.Shell.History.{show_history, no_history, add_history}
use wpi_operating_systems.Shell.History.Recent.{recent}
use wpi_operating_systems.Shell.Jobs.{
  Jobs, free_slot, no_jobs, foreground, no_such_directory, prompt, check_background_jobs,
  add_background_job, kill_job,
}
use wpi_operating_systems.Shell.Jobs.Ids.{empty, added, killed, IsTable, Reach-IsTable}
use wpi_operating_systems.Shell.Builtins.{
  Os, Shell, reply, is_cd, which, base_name, run_builtin, built_in, cd, arrive, dispatch, waited,
  forked, command,
}
use wpi_operating_systems.Shell.Lines.{
  parse, next, after, remembered, run_command, or_command, perform, start_shell, run_words,
  run_line, shell_round, strip_background, find_and_or, find_redirect, find_pipe,
}
use wpi_operating_systems.Shell.Lines.Operators.{sign, perform-parse, perform-built_in}
use wpi_operating_systems.Shell.Lines.Tables.{Session-IsTable}
use wpi_operating_systems.Shell.Lines.Recorded.{kept_of, start, line, show_history-Session}

-- A system without directories, where every command exits with 3.
abbrev os : Os
os = record {
  home = none;
  atoi = λ t. pos 1;
  chdir = λ n path dir. none;
  fork = λ n. some 40;
  wait = λ n words. some 3;
}

abbrev shell : Shell
shell = start_shell (47 ∷ []) []

-- Spaces at the ends and between the words.
tokens_spaces : tokens (32 ∷ 97 ∷ 98 ∷ 32 ∷ 32 ∷ 99 ∷ 32 ∷ []) ≡ (97 ∷ 98 ∷ []) ∷ (99 ∷ []) ∷ []
unfolding tokens
tokens_spaces = refl

split_line-build_command_example :
    split_line (build_command (split_line (32 ∷ 97 ∷ 98 ∷ 32 ∷ 32 ∷ 99 ∷ [])))
    ≡ split_line (32 ∷ 97 ∷ 98 ∷ 32 ∷ 32 ∷ 99 ∷ [])
split_line-build_command_example =
    split_line-build_command (32 ∷ 97 ∷ 98 ∷ 32 ∷ 32 ∷ 99 ∷ []) (omega arith)

-- two jobs, the first one killed
abbrev two_jobs : Jobs
two_jobs =
    (kill_job (pos 1)
      (add_background_job (pos 8) (98 ∷ []) (add_background_job (pos 7) (97 ∷ []) no_jobs).0).0).0

Reach-IsTable_example : IsTable 2 two_jobs
Reach-IsTable_example =
    Reach-IsTable 2 two_jobs
      (killed (pos 1) (added (pos 8) (98 ∷ []) (added (pos 7) (97 ∷ []) empty))) (omega arith)

-- The first job still runs when the numbers start again.
abbrev old_job : Jobs
old_job = record {
  slots =
      record { id = 1; pid = pos 7; command = 97 ∷ []; running = true } ∷ replicate 254 free_slot;
  next_job_id = 255;
  active_jobs = 1;
}

abbrev cd_word : Text
cd_word = 99 ∷ 100 ∷ []

-- `a || b` where `a` exits with 3
first_word :
    run_command os ((97 ∷ []) ∷ []) shell
    ≡ reply 3 (record shell { calls = 1 }) (foreground ((97 ∷ []) ∷ []) ∷ [])
unfolding run_command or_command built_in which base_name after_slash dispatch command forked waited
first_word = refl

perform-parse_example :
    perform os (parse (((97 ∷ []) ∷ []) ++ (sign false ∷ (98 ∷ []) ∷ []))) false [] shell
    ≡ remembered [] (
        after
          (foreground ((97 ∷ []) ∷ []) ∷ [])
          (run_command os ((98 ∷ []) ∷ []) (record shell { calls = 1 })))
perform-parse_example =
    perform-parse os (97 ∷ []) [] ((98 ∷ []) ∷ []) false false [] shell 3
      (record shell { calls = 1 }) (foreground ((97 ∷ []) ∷ []) ∷ []) tt first_word

found_cd : which (base_name cd_word) ≡ some is_cd
unfolding which base_name after_slash
found_cd = refl

ran_cd :
    run_builtin os is_cd ((97 ∷ []) ∷ []) shell
    ≡ reply 0 (record shell { calls = 1 }) (no_such_directory (97 ∷ []) ∷ [])
unfolding run_builtin cd arrive
ran_cd = refl

-- `cd a || b` where there is no directory `a`
perform-built_in_example :
    perform os (parse ((cd_word ∷ (97 ∷ []) ∷ []) ++ (sign false ∷ (98 ∷ []) ∷ []))) false [] shell
    ≡ remembered [] (next (record shell { calls = 1 }) (no_such_directory (97 ∷ []) ∷ []))
perform-built_in_example =
    perform-built_in os cd_word ((97 ∷ []) ∷ []) ((98 ∷ []) ∷ []) false false [] shell is_cd 0
      (record shell { calls = 1 }) (no_such_directory (97 ∷ []) ∷ []) ((refl, refl), tt) found_cd
      ran_cd

-- A session of one line, `a`.
abbrev shell_after : Shell
shell_after = record shell { calls = 1; history = add_history no_history (97 ∷ []) }

first_round :
    shell_round os [] (some (97 ∷ 10 ∷ [])) shell
    ≡ next shell_after (prompt shell.shortened_path ∷ foreground ((97 ∷ []) ∷ []) ∷ [])
unfolding shell_round check_background_jobs run_line chomp split_line tokens strip_background
    run_words perform parse find_and_or find_redirect find_pipe run_command or_command built_in
    which base_name after_slash dispatch command forked waited
first_round = refl

show_history-Session_example :
    show_history shell_after.history ≡ recent ([] ++ kept_of (97 ∷ 10 ∷ []))
show_history-Session_example =
    show_history-Session os ([] ++ kept_of (97 ∷ 10 ∷ [])) shell_after
      (line [] (97 ∷ 10 ∷ []) (start (47 ∷ []) []) first_round)

Session-IsTable_example : (n : ℕ) × IsTable n shell_after.jobs
Session-IsTable_example =
    Session-IsTable os ([] ++ kept_of (97 ∷ 10 ∷ [])) shell_after
      (line [] (97 ∷ 10 ∷ []) (start (47 ∷ []) []) first_round) (omega arith)
