-- ===== src/Dockerutil/Exec/Captured.antt =====
-- What `ExecContainer` of dockerutil/exec.go returns of a command's output, and when waiting ends.
use mathlib.Core.List.{flatten}
use mathlib.Core.Path.{subst}
use envbox.Prelude.{
  ℕ, zero, suc, ◌+◌, ◌<◌, ◌≡◌, refl, ap, ◌∙◌, Bool, true, false, List, [], ◌++◌, Option, none, some,
  Bytes, codes, Error, failure, Result, ok, err, take, length, ltb, if◌then◌else◌, decimal, arith,
  ◌⊎◌, inl, inr,
}
use envbox.Xio.LimitWriter.{skip_message}
use envbox.Xio.LimitWriter.Output.{write_all-Holds}
use envbox.Xio.LimitWriter.Refine.{new-Holds, Holds}
use envbox.Dockerutil.Exec.{
  Inspect, Session, exec_container, captured, check, stdin_check, finish, exit_result,
  wait_for_exit,
}

-- The first kibibyte of a text, and the message where it is longer than two.
abbrev pub head_of : Bytes → Bytes
head_of text = take 1024 text ++ (if ltb 2048 (length text) then skip_message else [])

Holds-head : {h : Bytes} {p : _} → Holds h p → p.n ≡ 1024 → p.w ≡ head_of h
Holds-head {h} {p} v same_n =
    v.out
    ∙ ap (λ b. take p.n h ++ (if b then skip_message else [])) v.skipped_eq
    ∙ ap (λ n. take n h ++ (if ltb (n + n) (length h) then skip_message else [])) same_n

captured_lem : (output : List Bytes) → captured output ≡ some (head_of (flatten output))
unfolding captured
captured_lem output =
    let (p, e, same_n, v) = write_all-Holds output (new-Holds 1024 (omega arith)) in
    rw (captured, e) (ap some (Holds-head v same_n))

-- The input, if there is one, is copied and its end sent.
abbrev pub StdinFine : Session → Type 0
StdinFine s = (s.stdin ≡ none) ⊎ (s.stdin ≡ some (none, none))

stdin_fine :
    (s : Session) (next : Result (Option (Result Bytes)))
    → StdinFine s
    → stdin_check s.stdin next ≡ next
unfolding stdin_check check
stdin_fine s next (inl e) = rw e refl
stdin_fine s next (inr e) = rw e refl

-- `ExecContainer` returns, for a command that is started, read to its end and has exited with 0, the
-- first kibibyte of its output, and the message of the limit writer behind it where the output is
-- longer than two. With another code it returns an error with that text and the code. The rest of the
-- output is lost in each case, since the limit writer that keeps its end is never flushed.
pub exec_container_output :
    (s : Session) (i : Inspect)
    → s.exec_create ≡ none
    → s.exec_attach ≡ none
    → StdinFine s
    → s.copied ≡ none
    → s.inspect ≡ ok i
    → i.running ≡ false
    → exec_container s
      ≡ some (
          if ltb 0 i.exit_code
          then err
              (failure (head_of (flatten s.output) ++ codes ": exit code " ++ decimal i.exit_code))
          else ok (head_of (flatten s.output)))
unfolding exec_container check finish exit_result
exec_container_output s i created attached stdin copied inspected stopped =
    rw
      (
        exec_container,
        created,
        attached,
        stdin_fine s _ stdin,
        copied,
        captured_lem s.output,
        inspected,
        stopped,
      )
      refl

-- What `WaitForExit` returns for a command that has exited.
abbrev pub exit_error : Inspect → Option Error
exit_error i =
    if ltb 0 i.exit_code then some (failure (codes "exit code " ++ decimal i.exit_code)) else none

module _ (wait : ℕ → Bool) (inspect : ℕ → Result Inspect) (done : Error) (fuel k : ℕ)
    (i : Inspect) where
  exit_round :
      wait k ≡ true
      → inspect k ≡ ok i
      → i.running ≡ false
      → wait_for_exit wait inspect done (suc fuel) k ≡ some (exit_error i)
  unfolding wait_for_exit
  exit_round go seen stopped = rw (wait_for_exit, go, seen, stopped) refl

  running_round :
      wait k ≡ true
      → inspect k ≡ ok i
      → i.running ≡ true
      → wait_for_exit wait inspect done (suc fuel) k ≡ wait_for_exit wait inspect done fuel (suc k)
  unfolding wait_for_exit
  running_round go seen runs = rw (wait_for_exit, go, seen, runs) refl

-- A command that runs at `n` looks and has exited at the next: `WaitForExit` returns nil if it exited
-- with 0 and an error otherwise.
pub wait_for_exit_lem :
    (wait : ℕ → Bool) (inspect : ℕ → Result Inspect) (done : Error) (n fuel k : ℕ) (i : Inspect)
    → ((j : ℕ) → wait j ≡ true)
    → ((j : ℕ) → j < n → (r : Inspect) × (inspect (k + j) ≡ ok r) × (r.running ≡ true))
    → inspect (k + n) ≡ ok i
    → i.running ≡ false
    → wait_for_exit wait inspect done (n + suc fuel) k ≡ some (exit_error i)
wait_for_exit_lem wait inspect done zero fuel k i waits runs exited stopped =
    let here : k + 0 ≡ k = omega arith in
    let more : 0 + suc fuel ≡ suc fuel = omega arith in
    ap (λ m. wait_for_exit wait inspect done m k) more
    ∙ exit_round wait inspect done fuel k i (waits k) (subst (λ j. inspect j ≡ ok i) here exited)
        stopped
wait_for_exit_lem wait inspect done (suc n) fuel k i waits runs exited stopped =
    let here : k + 0 ≡ k = omega arith in
    let next : (j : ℕ) → k + suc j ≡ suc k + j = λ j. omega arith in
    let more : suc n + suc fuel ≡ suc (n + suc fuel) = omega arith in
    let (r, seen, running) = runs 0 (omega arith) in
    ap (λ m. wait_for_exit wait inspect done m k) more
    ∙ running_round wait inspect done (n + suc fuel) k r (waits k)
        (subst (λ j. inspect j ≡ ok r) here seen) running
    ∙ wait_for_exit_lem wait inspect done n fuel (suc k) i waits
        (λ j lt.
          let (r', seen', running') = runs (suc j) (omega arith) in
          (r', subst (λ m. inspect m ≡ ok r') (next j) seen', running'))
        (subst (λ m. inspect m ≡ ok i) (next n) exited) stopped
