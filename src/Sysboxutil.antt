-- ===== src/Sysboxutil.antt =====
-- sysboxutil/manager.go: `WaitForManager`.
--
-- At the `k`-th round of the loop, `done k` is the error of the context where the select takes that case,
-- and `stat k` is what the file system answers for the socket of the manager where it takes the tick.
mod Appears
mod Tests
use envbox.Prelude.{
  ℕ, zero, suc, true, false, Option, none, some, Bytes, codes, Error, wrap, is_cause, not_exist,
  ◌++◌,
}

abbrev pub manager_socket_path : Bytes
manager_socket_path = codes "/run/sysbox/sysmgr.sock"

pub record Manager : Type 0 where
  pub first_stat : Option Error
  pub stat : ℕ → Option Error
  pub done : ℕ → Option Error

module _ (m : Manager) where
  -- The loop, with `none` where it needs more rounds than the fuel.
  pub stat_loop : ℕ → ℕ → Option (Option Error)
  stat_loop zero k = none
  stat_loop (suc fuel) k = elim (m.done k) [
    | some e ↦ some (some e)
    | none ↦ elim (m.stat k) [
      | none ↦ some none
      | some e ↦ elim (is_cause e not_exist) [
        | true ↦ stat_loop fuel (suc k)
        | false ↦ some (some (wrap (codes "unexpected stat err " ++ manager_socket_path) e))
      ]
    ]
  ]

  pub wait_for_manager : ℕ → Option (Option Error)
  unfolding stat_loop
  wait_for_manager fuel = elim m.first_stat [ none ↦ some none | some e ↦ stat_loop fuel 0 ]
