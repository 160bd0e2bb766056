-- ===== src/Background/Process/Tests.antt =====
-- The theorems on `isProcExited` and `kill` at the command line of a Docker daemon.
use envbox.Prelude.{
  ℕ, ◌≡◌, ◌⊎◌, ◌↔◌, refl, Bool, true, false, [], ◌∷◌, ◌++◌, Option, none, some, Bytes, codes, Error,
  Result, ok, err, arith,
}
use envbox.Background.Process.{is_proc_exited, kill, log_fn, log_warn, wait_result, err_user_killed}
use envbox.Background.Process.Exit.{is_proc_exited_running, is_proc_exited_iff, kill_running}

-- The arguments of `dockerd --debug` as the kernel shows them.
abbrev cmdline : Bytes
cmdline = codes "dockerd" ++ 0 ∷ (codes "--debug" ++ 0 ∷ [])

warning : log_fn (codes "time=1 level=warning msg=x") ≡ log_warn
unfolding log_fn envbox.Prelude.contains
warning = refl

killed_by_user : wait_result true (codes "out") none ≡ some err_user_killed
unfolding wait_result
killed_by_user = refl

is_proc_exited_running_run : is_proc_exited (ok cmdline) (codes "dockerd") ≡ ok true
is_proc_exited_running_run = is_proc_exited_running (codes "dockerd") (codes "--debug" ++ 0 ∷ [])

is_proc_exited_iff_run : (is_proc_exited (ok (codes "sleep0")) (codes "sleep") ≡ ok false) ↔ (
    (codes "sleep0" ≡ codes "sleep")
    ⊎ ((rest : Bytes) × (codes "sleep0" ≡ codes "sleep" ++ b'0' ∷ rest)))
is_proc_exited_iff_run = is_proc_exited_iff (codes "sleep0") (codes "sleep") (omega arith)

kill_running_example :
    kill (λ k. ok cmdline) (λ k. none) (codes "dockerd") 1 true none false ≡ (some none, true)
kill_running_example =
    kill_running (λ k. ok cmdline) (λ k. none) (codes "dockerd") (codes "--debug" ++ 0 ∷ []) 0 false
      refl
