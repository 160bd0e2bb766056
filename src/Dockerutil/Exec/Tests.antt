-- ===== src/Dockerutil/Exec/Tests.antt =====
-- The theorems on dockerutil/exec.go at concrete commands.
use mathlib.Core.List.{flatten}
use envbox.Prelude.{
  ℕ, ◌+◌, ◌<◌, ◌≡◌, refl, true, false, [], ◌∷◌, ◌++◌, none, some, codes, failure, Result, ok, err,
  arith, inr, ltb, if◌then◌else◌, decimal,
}
use envbox.Dockerutil.Exec.{Session, Inspect, exec_container, wait_for_exit}
use envbox.Dockerutil.Exec.Captured.{head_of, exit_error, exec_container_output, wait_for_exit_lem}

abbrev exited : ℕ → Inspect
exited code = record { running = false; exit_code = code; pid = 7 }

abbrev runs : Inspect
runs = record { running = true; exit_code = 0; pid = 7 }

abbrev session : Session
session = record {
  exec_create = none;
  exec_attach = none;
  stdin = some (none, none);
  output = codes "not " ∷ codes "found" ∷ [];
  copied = none;
  inspect = ok (exited 2);
}

exec_container_output_example :
    exec_container session
    ≡ some (err (failure (head_of (flatten session.output) ++ codes ": exit code " ++ decimal 2)))
exec_container_output_example =
    exec_container_output session (exited 2) refl refl (inr refl) refl refl refl

-- The command runs at two looks and has exited at the third.
abbrev looks : ℕ → Result Inspect
looks k = ok (if ltb k 2 then runs else exited 0)

wait_for_exit_lem_run :
    wait_for_exit (λ k. true) looks (failure (codes "canceled")) 3 0 ≡ some (exit_error (exited 0))
wait_for_exit_lem_run =
    wait_for_exit_lem (λ k. true) looks (failure (codes "canceled")) 2 0 0 (exited 0) (λ j. refl)
      (λ j lt. (runs, looks_run j lt, refl)) refl refl
  where
    looks_run : (j : ℕ) → j < 2 → looks (0 + j) ≡ ok runs
    looks_run j lt = ground arith
