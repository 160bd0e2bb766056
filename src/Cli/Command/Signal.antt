-- ===== src/Cli/Command/Signal.antt =====
-- What the goroutine for a signal in cli/docker.go kills.
use mathlib.Core.Path.{subst}
use envbox.Prelude.{
  ℕ, ◌≡◌, ◌≢◌, refl, Bool, List, [], ◌∷◌, Option, none, some, Bytes, codes, decimal, Error, Result,
  ok, err,
}
use envbox.Dockerutil.Exec.{Inspect, get_exec_pid}
use envbox.Dockerutil.Exec.Pid.{IsPid, get_exec_pid-IsPid}
use envbox.Cli.Command.{shut_down}

-- The process that is sent the signal: that of the bootstrap, or, where its id could not be found, `0`, which
-- is every process of the group of envbox. None is, once the context is done.
abbrev pub Signals : Result ℕ → Option Error → Option (List Bytes) → Type 0
Signals r (some e) command = command ≡ none
Signals (ok pid) none command =
    (pid ≢ 0) × (command ≡ some (codes "kill" ∷ codes "-TERM" ∷ decimal pid ∷ []))
Signals (err e) none command = command ≡ some (codes "kill" ∷ codes "-TERM" ∷ codes "0" ∷ [])

signalled :
    (c : ℕ) (id : Bytes) (r : Result ℕ) (ctx_done : Option Error) (run : List Bytes → Option Error)
    (waited : Option Error)
    → IsPid (some r)
    → Signals r ctx_done (shut_down (c ∷ id) r ctx_done run waited).0
unfolding shut_down
signalled c id (ok pid) (some e) run waited h = refl
signalled c id (err x) (some e) run waited h = refl
signalled c id (ok pid) none run waited h = (h, refl)
signalled c id (err e) none run waited h = unfold decimal in refl

-- On a signal, while its context of 90 seconds is not done, the goroutine kills the process of the bootstrap
-- if `GetExecPID` finds it, which is not 0 then; if `GetExecPID` returns an error, it runs `kill -TERM 0`, which
-- kills every process of the group of envbox. Once the context is done, it runs nothing.
pub shut_down-Signals :
    (wait : ℕ → Bool) (inspect : ℕ → Result Inspect) (done : Error) (fuel k : ℕ) (r : Result ℕ)
    (c : ℕ) (id : Bytes) (ctx_done : Option Error) (run : List Bytes → Option Error)
    (waited : Option Error)
    → get_exec_pid wait inspect done fuel k ≡ some r
    → Signals r ctx_done (shut_down (c ∷ id) r ctx_done run waited).0
shut_down-Signals wait inspect done fuel k r c id ctx_done run waited found =
    signalled c id r ctx_done run waited
      (subst IsPid found (get_exec_pid-IsPid wait inspect done fuel k))
