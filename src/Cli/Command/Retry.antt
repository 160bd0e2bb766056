-- ===== src/Cli/Command/Retry.antt =====
-- What the command of cli/docker.go answers, and the second run of `runDockerCVM`.
use mathlib.Core.Path.{subst}
use envbox.Prelude.{
  ◌≡◌, ◌⊎◌, refl, sym, ap, ◌∙◌, true, false, List, [], ◌∷◌, ◌++◌, none, Bytes, codes, same, Error,
  wrap, Result, ok, err, Bool-cases, inl, inr,
}
use envbox.Prelude.Steps.{nil, after, call, answered}
use envbox.Dockerutil.Image.{is_no_space_err}
use envbox.Cli.Gives.{
  Gives, Gives-return, bind_gives, given_gives, call_gives, Gives-weaken, Gives-call, Gives-err,
  fails, context_ok,
}
use envbox.Cli.Cvm
use envbox.Cli.Cvm.Success.{Completed, run_docker_cvm_lem}
use envbox.Cli.Command.{
  Options, Act, start_dockerd, wait_for_manager, wait_for_daemon, write_certs, run_cvm,
  restart_dockerd, Host, dockerd_args_for, registry_certs, run_inner, run_unread, reattempt,
  behind_first, run_cvm_twice, run_command,
}

module _ (h : Host) (f : Options) where
  run_unread-Gives : Gives (run_unread h f) (λ a cs. Unit {0})
  unfolding run_unread run_inner
  run_unread-Gives = record { gives = λ t t' a e. (_, sym (ap (λ p. p.1) e), tt) }

  -- A second run is no success of the command.
  reattempt-Gives : (e : Error) → Gives (reattempt h f e) (λ a cs. ⊥)
  unfolding reattempt
  reattempt-Gives e = given_gives _ _ _ λ args made.
      call_gives _ _ _ _ _ λ restarted.
        bind_gives _ _ (λ a cs. Unit {0}) _ run_unread-Gives λ ran cs done. Gives-err _ _

  behind_no_space :
      (p : Result Bytes × List Act) (e : Error)
      → p.0 ≡ err e
      → is_no_space_err e ≡ true
      → behind_first h f p ≡ reattempt h f e p.1
  unfolding behind_first
  behind_no_space (ok id, t) e failed full = absurd (cc failed)
  behind_no_space (err x, t) e failed full =
      let same_error : x ≡ e = cc failed in
      let full' : is_no_space_err x ≡ true = ap is_no_space_err same_error ∙ full in
      rw (behind_first, full') (ap (λ y. reattempt h f y t) same_error)

  reattempt_made :
      (e : Error) (t : List Act) (args : Bytes × List Bytes)
      → dockerd_args_for h f true ≡ ok args
      → h.restart t ≡ none
      → reattempt h f e t
        ≡ (err (wrap (codes "run") e), (run_inner h f (t ++ restart_dockerd args ∷ [])).1)
  unfolding reattempt run_unread after call answered
  reattempt_made e t args made restarted = rw (made, restarted) refl

-- Where the first run of `runDockerCVM` fails for want of space, the command returns an error, whatever the
-- restart of dockerd and the second run answer.
pub run_cvm_twice_no_space :
    (h : Host) (f : Options) (t : List Act) (e : Error)
    → (run_inner h f t).0 ≡ err e
    → is_no_space_err e ≡ true
    → (x : Error) × ((run_cvm_twice h f t).0 ≡ err x)
unfolding run_cvm_twice
run_cvm_twice_no_space h f t e failed full =
    let (x, is_err) = fails (reattempt h f e) (run_inner h f t).1 (reattempt-Gives h f e) in
    (x, ap (λ p. p.0) (behind_no_space h f (run_inner h f t) e failed full) ∙ is_err)

-- If dockerd is restarted, the second run is made behind that, and the error is that of the first run.
pub run_cvm_twice_restarted :
    (h : Host) (f : Options) (t : List Act) (e : Error) (args : Bytes × List Bytes)
    → (run_inner h f t).0 ≡ err e
    → is_no_space_err e ≡ true
    → dockerd_args_for h f true ≡ ok args
    → h.restart (run_inner h f t).1 ≡ none
    → run_cvm_twice h f t ≡ (
      err (wrap (codes "run") e),
      (run_inner h f ((run_inner h f t).1 ++ restart_dockerd args ∷ [])).1,
    )
unfolding run_cvm_twice
run_cvm_twice_restarted h f t e args failed full made restarted =
    behind_no_space h f (run_inner h f t) e failed full
    ∙ reattempt_made h f e (run_inner h f t).1 args made restarted

module _ (h : Host) (f : Options) where
  -- The run of `runDockerCVM` that gave the value.
  abbrev pub IsRun : Bytes → List Act → Type 0
  IsRun id acts =
      (u : List Act) × (calls : List Cvm.Call) × Completed (h.outside u) f.cvm id calls
      × (acts ≡ run_cvm calls ∷ [])

  -- Certificates are written if there is a path for them.
  abbrev pub IsCerts : List Act → Type 0
  IsCerts acts =
      ((same f.extra_certs_path [] ≡ true) × (acts ≡ []))
      ⊎ ((registry : Bytes) × (h.registry f.cvm.inner_image ≡ ok registry)
          × (acts ≡ write_certs registry f.extra_certs_path ∷ []))

  pub record Done (id : Bytes) (acts : List Act) : Type 0 where
    pub args : Bytes × List Bytes
    pub certs : List Act
    pub rest : List Act
    pub args_lem : dockerd_args_for h f false ≡ ok args
    pub certs_lem : IsCerts certs
    pub run : IsRun id rest
    pub acts_lem : acts ≡ start_dockerd args ∷ wait_for_manager ∷ wait_for_daemon ∷ (certs ++ rest)

  run_inner-Gives : Gives (run_inner h f) IsRun
  unfolding run_inner
  run_inner-Gives = record {
    gives = λ t t' a e. (
      _,
      sym (ap (λ p. p.1) e),
      (
        t,
        (Cvm.run_docker_cvm (h.outside t) f.cvm []).1,
        run_docker_cvm_lem (h.outside t) f.cvm a _
            (ap (λ x. (x, (Cvm.run_docker_cvm (h.outside t) f.cvm []).1)) (ap (λ p. p.0) e)),
        refl,
      ),
    );
  }

  behind_first-ok :
      (p : Result Bytes × List Act) (id : Bytes) (t' : List Act)
      → behind_first h f p ≡ (ok id, t')
      → p ≡ (ok id, t')
  unfolding behind_first
  behind_first-ok (ok x, t) id t' e = e
  behind_first-ok (err x, t) id t' e = elim (Bool-cases (is_no_space_err x)) [
    | inl full ↦ absurd ((reattempt-Gives h f x).gives t t' id (rw (behind_first, full) at e)).2
    | inr other ↦ absurd (cc (ap (λ p. p.0) (rw (behind_first, other) at e)))
  ]

  run_cvm_twice-Gives : Gives (run_cvm_twice h f) IsRun
  unfolding run_cvm_twice
  run_cvm_twice-Gives = record {
    gives = λ t t' a e. run_inner-Gives.gives t t' a (behind_first-ok (run_inner h f t) a t' e);
  }

  registry_certs-Gives : Gives (registry_certs h f) (λ a acts. IsCerts acts)
  unfolding registry_certs
  registry_certs-Gives = elim (Bool-cases (same f.extra_certs_path [])) [
    | inl none_given ↦ rw none_given (Gives-return nil _ (inl (refl, refl)))
    | inr given_path ↦ rw given_path (
        given_gives _ _ _ λ registry named.
          Gives-weaken _ _ _ (Gives-call _ _ _)
            (λ a acts e. inr (registry, context_ok _ _ registry named, e)))
  ]

  run_command-Gives : Gives (run_command h f) Done
  unfolding run_command
  run_command-Gives = given_gives _ _ _ λ client made. given_gives _ _ _ λ log opened.
      given_gives _ _ _ λ args with_args. call_gives _ _ _ _ _ λ started.
        call_gives _ _ _ _ _ λ managed. given_gives _ _ _ λ docker extracted.
          call_gives _ _ _ _ _ λ waited.
            bind_gives _ _ (λ a acts. IsCerts acts) _ registry_certs-Gives
              λ copied certs is_certs. Gives-weaken _ _ _ run_cvm_twice-Gives λ id rest is_run.
                record {
                  args = args;
                  certs = certs;
                  rest = rest;
                  args_lem = context_ok _ _ args with_args;
                  certs_lem = is_certs;
                  run = is_run;
                  acts_lem = refl;
                }

-- Where the command succeeds, it has started dockerd with the arguments for the link and the bridge, waited
-- for the manager of Sysbox and for dockerd, written certificates if it has a path for them, and made one
-- run of `runDockerCVM`, which has done all of its calls.
pub run_command_lem :
    (h : Host) (f : Options) (id : Bytes) (acts : List Act)
    → run_command h f [] ≡ (ok id, acts)
    → Done h f id acts
run_command_lem h f id acts e =
    let (added, made, done) = (run_command-Gives h f).gives [] acts id e in
    subst (Done h f id) (sym made) done
