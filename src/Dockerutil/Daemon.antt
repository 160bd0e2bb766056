-- ===== src/Dockerutil/Daemon.antt =====
-- dockerutil/daemon.go: `WaitForDaemon`.
--
-- The daemon and the clock are read at the `k`-th tick: `ping k` is what the ping after it answers,
-- `done k` is the error of the five-minute context if it is done before it, and `ping_ctx_done k` says
-- whether the one-second context of the first ping is done after it. The loop tests that context, since
-- the context of its own ping is in scope in the closure only.
mod Wait
mod Tests
use envbox.Prelude.{ℕ, zero, suc, Bool, true, false, ◌||◌, Option, none, some, Error}

pub record Daemon : Type 0 where
  pub first_ping : Option Error
  pub ping : ℕ → Option Error
  pub done : ℕ → Option Error
  pub ping_ctx_done : ℕ → Bool
  -- `dockerclient.IsErrConnectionFailed`
  pub is_connection_failed : Error → Bool

module _ (d : Daemon) where
  -- The loop, with `none` where it needs more rounds than the fuel.
  pub ping_loop : ℕ → ℕ → Option (Option Error)
  ping_loop zero k = none
  ping_loop (suc fuel) k = elim (d.done k) [
    | some e ↦ some (some e)
    | none ↦ elim (d.ping k) [
      | none ↦ some none
      | some e ↦ elim (d.is_connection_failed e || d.ping_ctx_done k) [
        | true ↦ ping_loop fuel (suc k)
        | false ↦ some (some e)
      ]
    ]
  ]

  pub wait_for_daemon : ℕ → Option (Option Error)
  unfolding ping_loop
  wait_for_daemon fuel = elim d.first_ping [ none ↦ some none | some e ↦ ping_loop fuel 0 ]
