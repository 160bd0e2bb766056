-- ===== src/Dockerutil/Exec.antt =====
-- dockerutil/exec.go: `ExecContainer` and the loops that wait for a command.
--
-- What the Docker client answers is a value. A command's output comes in pieces, as `io.Copy` writes
-- them. `wait` and `inspect` answer for the number of the round, and a loop takes fuel for its rounds.
pub mod Captured
pub mod Pid
mod Tests
use envbox.Prelude.{
  ℕ, zero, suc, Bool, true, false, List, [], ◌∷◌, ◌++◌, Option, none, some, Bytes, codes, Error,
  failure, Result, ok, err, ◌>>=◌, context, if◌then◌else◌, ltb, leb, ◌==◌, decimal,
}
use envbox.Xio.LimitWriter.{PrefixSuffixWriter}
use envbox.Xio.LimitWriter.Output.{write_all}
use envbox.Xio.LimitWriter.Refine.{new}

-- `container.ExecInspect`: exit codes are not negative.
pub record Inspect : Type 0 where
  pub running : Bool
  pub exit_code : ℕ
  pub pid : ℕ

pub record Session : Type 0 where
  pub exec_create : Option Error
  pub exec_attach : Option Error
  -- where there is an input: what copying it answers, and closing the connection for writing
  pub stdin : Option (Option Error × Option Error)
  pub output : List Bytes
  -- the error of reading the output, or of the second writer `StdOutErr`
  pub copied : Option Error
  pub inspect : Result Inspect

-- `if err != nil { return xerrors.Errorf("what: %w", err) }` and what follows it.
check : Bytes → Option Error → Result (Option (Result Bytes)) → Result (Option (Result Bytes))
check what none next = next
check what (some e) next = context what (err e)

-- The copy of the input.
stdin_check :
    Option (Option Error × Option Error)
    → Result (Option (Result Bytes))
    → Result (Option (Result Bytes))
unfolding check
stdin_check none next = next
stdin_check (some (copied, closed)) next =
    check (codes "copy stdin") copied (check (codes "close write") closed next)

-- What is returned for the state of the command and its output.
exit_result : Inspect → Bytes → Result Bytes
exit_result i out =
    if i.running
    then err (failure (codes "unexpectedly still running"))
    else if ltb 0 i.exit_code
    then err (failure (out ++ codes ": exit code " ++ decimal i.exit_code))
    else ok out

-- The output that the limit writer has passed on to the buffer; the writer is not flushed.
captured : List Bytes → Option Bytes
captured output = elim (write_all output (new 1024)) [ none ↦ none | some p ↦ some p.w ]

finish : Session → Option Bytes → Option (Result Bytes)
unfolding exit_result
finish s none = none
finish s (some out) = some (context (codes "exec inspect") s.inspect >>= λ i. exit_result i out)

-- `ExecContainer`, with `none` where the limit writer runs out of fuel.
pub exec_container : Session → Option (Result Bytes)
unfolding check stdin_check captured finish
exec_container s =
    elim (check (codes "exec create") s.exec_create (
      check (codes "attach to exec") s.exec_attach (
        stdin_check s.stdin
          (check (codes "copy cmd output") s.copied (ok (finish s (captured s.output))))))) [
            | err e ↦ some (err e)
            | ok r ↦ r
          ]

module _ (wait : ℕ → Bool) (inspect : ℕ → Result Inspect) (done : Error) where
  unfoldable pub get_exec_pid : ℕ → ℕ → Option (Result ℕ)
  get_exec_pid zero k = none
  get_exec_pid (suc fuel) k = elim (wait k) [
    | false ↦ some (err done)
    | true ↦ elim (context (codes "exec inspect") (inspect k)) [
      | err e ↦ some (err e)
      | ok i ↦ elim (i.pid == 0) [ true ↦ get_exec_pid fuel (suc k) | false ↦ some (ok i.pid) ]
    ]
  ]

  pub wait_for_exit : ℕ → ℕ → Option (Option Error)
  wait_for_exit zero k = none
  wait_for_exit (suc fuel) k = elim (wait k) [
    | false ↦ some (some done)
    | true ↦ elim (context (codes "exec inspect") (inspect k)) [
      | err e ↦ some (some e)
      | ok i ↦ elim i.running [
        | true ↦ wait_for_exit fuel (suc k)
        | false ↦ some (
            if ltb 0 i.exit_code
            then some (failure (codes "exit code " ++ decimal i.exit_code))
            else none)
      ]
    ]
  ]
