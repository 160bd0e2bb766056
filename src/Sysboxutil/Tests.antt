-- ===== src/Sysboxutil/Tests.antt =====
-- The theorem on `WaitForManager` at a concrete manager.
use envbox.Prelude.{
  ◌≡◌, ◌↔◌, ◌⊎◌, refl, none, some, Error, codes, is_cause, not_exist, if◌then◌else◌, ltb, same,
}
use envbox.Sysboxutil.{Manager, wait_for_manager, stat_loop}
use envbox.Sysboxutil.Appears.{Appears, wait_for_manager_iff}

abbrev missing : Error
missing = record { cause = not_exist; text = codes "stat: no such file or directory" }

-- A socket that is there at the third tick.
abbrev slow : Manager
slow = record {
  first_stat = some missing;
  stat = λ k. if ltb k 2 then some missing else none;
  done = λ k. none;
}

slow_run : wait_for_manager slow 3 ≡ some none
unfolding wait_for_manager stat_loop is_cause same
slow_run = refl

wait_for_manager_iff_example :
    (wait_for_manager slow 3 ≡ some none) ↔ ((slow.first_stat ≡ none) ⊎ Appears slow 3 0)
wait_for_manager_iff_example = wait_for_manager_iff slow 3
