-- ===== src/Background/Process.antt =====
-- background/process.go: how a background process is killed, and the level of the lines it logs.
--
-- `read k` is what `afero.ReadFile` answers for /proc/<pid>/cmdline at the `k`-th look, and
-- `done k` is the error of the context if it is done at the `k`-th tick.
pub mod Exit
mod Tests
use envbox.Prelude.{
  ℕ, zero, suc, Bool, true, false, not, List, [], ◌∷◌, ◌++◌, Option, none, some, Bytes, codes, same,
  split, contains, Error, failure, wrap, is_cause, not_exist, Result, ok, err, ◌>>=◌, context,
  if◌then◌else◌,
}

-- Whether the first part of the command line is another than the command.
other_command : Bytes → Bytes → List Bytes → Result Bool
other_command cmdline cmd [] =
    err (failure (codes "cmdline has no output (" ++ cmdline ++ codes ")?"))
other_command cmdline cmd (arg ∷ args) = ok (not (same cmd arg))

-- `isProcExited`, given what the file of the process reads.
pub is_proc_exited : Result Bytes → Bytes → Result Bool
unfolding other_command
is_proc_exited (err e) cmd =
    if is_cause e not_exist then ok true else err (wrap (codes "read file") e)
is_proc_exited (ok cmdline) cmd = other_command cmdline cmd (split cmdline b'0')

module _ (read : ℕ → Result Bytes) (done : ℕ → Option Error) (bin_name : Bytes) where
  -- The loop of `kill`, with `none` where it needs more rounds than the fuel.
  pub await_exit : ℕ → ℕ → Option (Option Error)
  await_exit zero k = none
  await_exit (suc fuel) k = elim (is_proc_exited (read k) bin_name) [
    | err e ↦ some (some (wrap (codes "is proc cmd") e))
    | ok true ↦ some none
    | ok false ↦ elim (done k) [ some e ↦ some (some e) | none ↦ await_exit fuel (suc k) ]
  ]

  -- `kill`: whether the command was started, what the signal answers, and `userKilled` after it.
  pub kill : ℕ → Bool → Option Error → Bool → Option (Option Error) × Bool
  unfolding await_exit
  kill fuel started signal user_killed =
      if not started
      then (some (some (failure (codes "cmd has not been started"))), user_killed)
      else elim signal [
        | some e ↦ (some (some (wrap (codes "kill proc") e)), true)
        | none ↦ (await_exit fuel 0, true)
      ]

pub data LogFn : Type 0 where
  log_debug : LogFn
  log_info : LogFn
  log_warn : LogFn
  log_error : LogFn

-- The function of the logger that `scanIntoLog` picks for a line.
pub log_fn : Bytes → LogFn
log_fn line =
    if contains line (codes "level=debug")
    then log_debug
    else if contains line (codes "level=info")
    then log_info
    else if contains line (codes "level=warning")
    then log_warn
    else if contains line (codes "level=error")
    then log_error
    else if contains line (codes "level=fatal")
    then log_error
    else log_info

abbrev pub err_user_killed : Error
err_user_killed = record {
  cause = codes "daemon killed by user";
  text = codes "daemon killed by user";
}

-- What the goroutine of `startProcess` sends when the command has ended.
unfoldable pub wait_result : Bool → Bytes → Option Error → Option Error
wait_result user_killed output result =
    if user_killed
    then some err_user_killed
    else elim result [ none ↦ none | some e ↦ some (wrap output e) ]

-- `scanIntoLog`: the calls of the logger for the lines of the output, each with the name of the command and
-- the line. `done k` says whether the context is done when the `k`-th line has been scanned.
pub scan_into_log : (ℕ → Bool) → Bytes → ℕ → List Bytes → List (LogFn × Bytes × Bytes)
unfolding log_fn
scan_into_log done name k [] = []
scan_into_log done name k (line ∷ lines) =
    let rest = scan_into_log done name (suc k) lines in
    if done k then [] else (log_fn line, name, line) ∷ rest
