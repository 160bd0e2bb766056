-- ===== src/Dockerutil/Exec/Pid.antt =====
-- The process that `GetExecPID` of dockerutil/exec.go finds.
use envbox.Prelude.{
  ℕ, zero, suc, ◌≢◌, Bool, true, false, Option, none, some, codes, Error, Result, ok, err, context,
  ◌==◌, arith, Bool-cases, inl, inr,
}
use envbox.Dockerutil.Exec.{Inspect, get_exec_pid}

-- A value that `GetExecPID` returns is not 0.
abbrev pub IsPid : Option (Result ℕ) → Type 0
IsPid none = Unit
IsPid (some (err e)) = Unit
IsPid (some (ok pid)) = pid ≢ 0

module _ (wait : ℕ → Bool) (inspect : ℕ → Result Inspect) (done : Error) where
  pub get_exec_pid-IsPid : (fuel k : ℕ) → IsPid (get_exec_pid wait inspect done fuel k)
  unfolding get_exec_pid
  get_exec_pid-IsPid zero k = tt
  get_exec_pid-IsPid (suc fuel) k =
      by_wait (wait k) (context (codes "exec inspect") (inspect k))
        (get_exec_pid-IsPid fuel (suc k))
    where
      by_wait :
          (w : Bool) (i : Result Inspect)
          → IsPid (get_exec_pid wait inspect done fuel (suc k))
          → IsPid (elim w as (λ _. Option (Result ℕ)) [
            | false ↦ some (err done)
            | true ↦ elim i [
              | err e ↦ some (err e)
              | ok j ↦ elim (j.pid == 0) [
                | true ↦ get_exec_pid wait inspect done fuel (suc k)
                | false ↦ some (ok j.pid)
              ]
            ]
          ])
      by_wait false i h = tt
      by_wait true (err e) h = tt
      by_wait true (ok j) h = elim (Bool-cases (j.pid == 0)) [
        | inl missing ↦ rw (IsPid, missing) h
        | inr found ↦ rw (IsPid, found) (ground arith)
      ]
