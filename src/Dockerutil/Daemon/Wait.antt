-- ===== src/Dockerutil/Daemon/Wait.antt =====
-- When `WaitForDaemon` of dockerutil/daemon.go returns, and what.
use mathlib.Core.Path.{subst, ap₂}
use envbox.Prelude.{
  ℕ, zero, suc, ◌+◌, ◌≤◌, ◌<◌, ◌≡◌, refl, ap, ◌∙◌, true, ◌||◌, none, some, Error, arith, dec_lt,
}
use envbox.Dockerutil.Daemon.{Daemon, ping_loop, wait_for_daemon}

module _ (d : Daemon) where
  -- The round of the `k`-th tick ends with another one.
  abbrev pub Again : ℕ → Type 0
  Again k =
      (d.done k ≡ none)
      × ((e : Error) × (d.ping k ≡ some e) × (d.is_connection_failed e || d.ping_ctx_done k ≡ true))

  round-Again : (fuel k : ℕ) → Again k → ping_loop d (suc fuel) k ≡ ping_loop d fuel (suc k)
  unfolding ping_loop
  round-Again fuel k (open_ctx, (e, failed, again)) = rw (ping_loop, open_ctx, failed, again) refl

  round_pinged :
      (fuel k : ℕ) → d.done k ≡ none → d.ping k ≡ none → ping_loop d (suc fuel) k ≡ some none
  unfolding ping_loop
  round_pinged fuel k open_ctx pinged = rw (ping_loop, open_ctx, pinged) refl

  round_done :
      (fuel k : ℕ) (e : Error) → d.done k ≡ some e → ping_loop d (suc fuel) k ≡ some (some e)
  unfolding ping_loop
  round_done fuel k e done = rw (ping_loop, done) refl

  rounds-Again :
      (n fuel k : ℕ)
      → ((j : ℕ) → j < n → Again (k + j))
      → ping_loop d (n + fuel) k ≡ ping_loop d fuel (k + n)
  rounds-Again zero fuel k again = ap₂ (ping_loop d) (omega arith) (omega arith)
  rounds-Again (suc n) fuel k again =
      let more : suc n + fuel ≡ suc (n + fuel) = omega arith in
      let here : k + 0 ≡ k = omega arith in
      let next : (j : ℕ) → k + suc j ≡ suc k + j = λ j. omega arith in
      ap (λ m. ping_loop d m k) more
      ∙ round-Again (n + fuel) k (subst Again here (again 0 (omega arith)))
      ∙ rounds-Again n fuel (suc k) (λ j lt. subst Again (next j) (again (suc j) (omega arith)))
      ∙ ap (ping_loop d fuel) (omega arith)

  -- Behind `n` rounds from the first tick.
  rounds_then :
      (e : Error) (n fuel : ℕ)
      → d.first_ping ≡ some e
      → ((j : ℕ) → j < n → Again j)
      → wait_for_daemon d (n + suc fuel) ≡ ping_loop d (suc fuel) n
  unfolding wait_for_daemon
  rounds_then e n fuel first again =
      let start : 0 + n ≡ n = omega arith in
      rw (wait_for_daemon, first)
        (rounds-Again n (suc fuel) 0 (λ j lt. subst Again (omega arith) (again j lt))
          ∙ ap (ping_loop d (suc fuel)) start)

-- Where the daemon cannot be reached at first, and the context is open and the connection fails at
-- each of `n` ticks, `WaitForDaemon` returns nil if the ping after the next tick succeeds.
pub wait_for_daemon_pinged :
    (d : Daemon) (e : Error) (n fuel : ℕ)
    → d.first_ping ≡ some e
    → ((j : ℕ) → j < n → Again d j)
    → d.done n ≡ none
    → d.ping n ≡ none
    → wait_for_daemon d (n + suc fuel) ≡ some none
wait_for_daemon_pinged d e n fuel first again open_ctx pinged =
    rounds_then d e n fuel first again ∙ round_pinged d fuel n open_ctx pinged

-- Where the first ping fails, the connection fails at each tick before `m`, and the one-second context of the
-- first ping is done from the tick `m` on, a ping that fails from then on does not end the wait, whatever its
-- error is: if every ping does up to the tick `n`, the first one behind which the context of five minutes is
-- done, `WaitForDaemon` returns the error of that context. The code tests the context of the first ping and not
-- of the ping that failed.
pub wait_for_daemon_timeout :
    (d : Daemon) (e e' : Error) (m n fuel : ℕ)
    → d.first_ping ≡ some e
    → ((j : ℕ) → j < m → (x : Error) × (d.ping j ≡ some x) × (d.is_connection_failed x ≡ true))
    → ((j : ℕ) → m ≤ j → d.ping_ctx_done j ≡ true)
    → ((j : ℕ) → m ≤ j → j < n → (x : Error) × (d.ping j ≡ some x))
    → ((j : ℕ) → j < n → d.done j ≡ none)
    → m ≤ n
    → d.done n ≡ some e'
    → wait_for_daemon d (n + suc fuel) ≡ some (some e')
wait_for_daemon_timeout d e e' m n fuel first refused over failing going le done =
    rounds_then d e n fuel first (λ j lt. elim (dec_lt j m) [
      | yes early ↦
          let (x, failed, lost) = refused j early in (going j lt, (x, failed, ground arith))
      | no late ↦
          let (x, failed) = failing j (omega arith) lt in
          let second_over = over j (omega arith) in (going j lt, (x, failed, ground arith))
    ])
    ∙ round_done d fuel n e' done
