-- ===== src/Dockerutil/Container/Bootstrap.antt =====
-- `BootstrapContainer` of dockerutil/container.go: how often the script is run, and what is returned.
use mathlib.Core.Path.{subst}
use envbox.Prelude.{
  ℕ, zero, suc, ◌+◌, ◌≤◌, ◌≡◌, ◌≢◌, ◌⊎◌, refl, sym, Bool, true, false, [], ◌∷◌, Option, none, some,
  Bytes, codes, Error, wrap, arith, Bool-cases, inl, inr,
}
use envbox.Dockerutil.Container.{bootstrap_loop, bootstrap_container, timed_out}

module _ {World : Type 0} (wait : ℕ → Bool) (exec : World → Option Error × World) where
  -- `k` runs of the script that failed, one behind the other.
  pub data Failed (w : World) : ℕ → World → Type 0 where
    nothing : Failed w 0 w
    failure :
        {k : ℕ} {w₁ w₂ : World} (e : Error)
        → Failed w k w₁
        → exec w₁ ≡ (some e, w₂)
        → Failed w (suc k) w₂

  -- The ways for a bootstrap to end.
  pub data Ended (w : World) : Option Error × World → Type 0 where
    -- at most nine runs failed, and the next did not
    succeeded :
        {k : ℕ} {w₁ w₂ : World} → Failed w k w₁ → k ≤ 9 → exec w₁ ≡ (none, w₂) → Ended w (none, w₂)
    -- the context was done before the first run: nil, and the script was not run
    canceled : wait 0 ≡ false → Ended w (none, w)
    -- ten runs failed, or fewer before the context was done
    timed_out_after :
        {k : ℕ} {w₁ : World} (e : Error)
        → Failed w k w₁
        → (1 ≤ k) × (k ≤ 10)
        → (k ≡ 10) ⊎ (wait k ≡ false)
        → Ended w (some e, w₁)

  exec_cases :
      (w : World)
      → ((w' : World) × (exec w ≡ (none, w')))
        ⊎ ((e : Error) × (w' : World) × (exec w ≡ (some e, w')))
  exec_cases w = cases (exec w)
    where
      cases :
          (r : Option Error × World)
          → ((w' : World) × (r ≡ (none, w'))) ⊎ ((e : Error) × (w' : World) × (r ≡ (some e, w')))
      cases (none, w') = inl (w', refl)
      cases (some e, w') = inr (e, w', refl)

  module _ (left n : ℕ) (last : Option Error) (w w' : World) where
    round_stop : wait n ≡ false → bootstrap_loop wait exec (suc left) n last w ≡ (last, w)
    unfolding bootstrap_loop
    round_stop stop = rw (bootstrap_loop, stop) refl

    round_done :
        wait n ≡ true
        → exec w ≡ (none, w')
        → bootstrap_loop wait exec (suc left) n last w ≡ (none, w')
    unfolding bootstrap_loop
    round_done go done = rw (bootstrap_loop, go, done, done) refl

    round_failed :
        (e : Error)
        → wait n ≡ true
        → exec w ≡ (some e, w')
        → bootstrap_loop wait exec (suc left) n last w
          ≡ bootstrap_loop wait exec left (suc n) (some (wrap (codes "boostrap container ()") e)) w'
    unfolding bootstrap_loop
    round_failed e go failed = rw (bootstrap_loop, go, failed, failed) refl

  -- What the loop has after `n` rounds.
  Pending : World → ℕ → Option Error → World → Type 0
  Pending w₀ n last w =
      ((n ≡ 0) × (last ≡ none) × (w ≡ w₀)) ⊎ (((e : Error) × (last ≡ some e)) × (1 ≤ n))

  stopped :
      (w₀ : World) (n : ℕ) (last : Option Error) (w : World)
      → Failed w₀ n w
      → n ≤ 10
      → (n ≡ 10) ⊎ (wait n ≡ false)
      → Pending w₀ n last w
      → Ended w₀ (timed_out last, w)
  unfolding Pending timed_out
  stopped w₀ n last w failed le why (inr ((e, is_some), pos)) =
      subst (λ l. Ended w₀ (timed_out l, w)) (sym is_some)
        (timed_out_after (wrap (codes "timed out boostrapping container") e) failed (pos, le) why)
  stopped w₀ n last w failed le (inl ten) (inl (start, _, _)) = absurd (omega arith)
  stopped w₀ n last w failed le (inr stop) (inl (start, is_none, same_w)) =
      subst (λ l. Ended w₀ (timed_out l, w)) (sym is_none)
        (subst (λ v. Ended w₀ (none, v)) (sym same_w)
          (canceled (subst (λ k. wait k ≡ false) start stop)))

  -- What the loop has, with the error of a run that is out of retries wrapped.
  Result_of : Option Error × World → Option Error × World
  Result_of r = (timed_out r.0, r.1)

  bootstrap_loop-Ended :
      (w₀ : World) (left n : ℕ) (last : Option Error) (w : World)
      → Failed w₀ n w
      → left + n ≡ 10
      → Pending w₀ n last w
      → Ended w₀ (Result_of (bootstrap_loop wait exec left n last w))
  unfolding bootstrap_loop timed_out Result_of
  bootstrap_loop-Ended w₀ zero n last w failed total pending =
      stopped w₀ n last w failed (omega arith) (inl (omega arith)) pending
  bootstrap_loop-Ended w₀ (suc left) n last w failed total pending = elim (Bool-cases (wait n)) [
    | inr stop ↦
        subst (λ r. Ended w₀ (Result_of r)) (sym (round_stop left n last w w stop))
          (stopped w₀ n last w failed (omega arith) (inr stop) pending)
    | inl go ↦ elim (exec_cases w) [
      | inl (w', done) ↦
          subst (λ r. Ended w₀ (Result_of r)) (sym (round_done left n last w w' go done))
            (succeeded failed (omega arith) done)
      | inr (e, w', again) ↦
          subst (λ r. Ended w₀ (Result_of r)) (sym (round_failed left n last w w' e go again))
            (bootstrap_loop-Ended w₀ left (suc n) (some (wrap (codes "boostrap container ()") e)) w'
              (failure e failed again) (omega arith)
              (unfold Pending in inr ((_, refl), omega arith)))
    ]
  ]

-- For a script that is not empty, `BootstrapContainer` ends in one of three ways. It returns nil, and
-- its last run of the script, behind nine failed ones at most, succeeded. It returns nil without a run
-- of the script, since the context was done at once. Or it returns an error after ten failed runs, or
-- after fewer and with the context done.
pub bootstrap_container-Ended :
    {World : Type 0} (wait : ℕ → Bool) (exec : World → Option Error × World) (script : Bytes)
    (w : World)
    → script ≢ []
    → Ended wait exec w (bootstrap_container wait exec script w)
unfolding bootstrap_container Result_of Pending
bootstrap_container-Ended wait exec [] w ne = absurd (ne refl)
bootstrap_container-Ended wait exec (c ∷ script) w ne =
    bootstrap_loop-Ended wait exec w 10 0 none w nothing refl (inl (refl, refl, refl))
