-- ===== src/Dockerutil/Daemon/Tests.antt =====
-- The theorems on `WaitForDaemon` at concrete daemons.
use envbox.Prelude.{
  ◌≡◌, refl, true, if◌then◌else◌, none, some, Error, failure, codes, arith, leb, ltb, same,
  same_self,
}
use envbox.Dockerutil.Daemon.{Daemon, wait_for_daemon}
use envbox.Dockerutil.Daemon.Wait.{wait_for_daemon_pinged, wait_for_daemon_timeout}

abbrev refused : Error
refused = failure (codes "connection refused")

abbrev deadline : Error
deadline = failure (codes "context deadline exceeded")

-- A daemon that answers at the third tick.
abbrev slow : Daemon
slow = record {
  first_ping = some refused;
  ping = λ k. if ltb k 2 then some refused else none;
  done = λ k. none;
  ping_ctx_done = λ k. leb 4 k;
  is_connection_failed = λ e. true;
}

wait_for_daemon_pinged_run : wait_for_daemon slow 3 ≡ some none
wait_for_daemon_pinged_run =
    wait_for_daemon_pinged slow refused 2 0 refl (λ j lt. (refl, (refused, (ground arith), refl)))
      refl refl

-- A daemon that cannot be reached at two ticks, and answers with another error when the first second is over.
abbrev broken : Daemon
broken = record {
  first_ping = some refused;
  ping = λ k. some (if ltb k 2 then refused else failure (codes "internal error"));
  done = λ k. if ltb k 5 then none else some deadline;
  ping_ctx_done = λ k. leb 2 k;
  is_connection_failed = λ e. same e.text refused.text;
}

wait_for_daemon_timeout_example : wait_for_daemon broken 6 ≡ some (some deadline)
wait_for_daemon_timeout_example =
    wait_for_daemon_timeout broken refused deadline 2 5 0 refl
      (λ j lt.
        let early : ltb j 2 ≡ true = ground arith in
        (refused, (rw early refl), same_self refused.text))
      (λ j le. ground arith) (λ j le lt. (_, refl)) (λ j lt. ground arith) (omega arith) refl
