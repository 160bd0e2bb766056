-- ===== src/Cli/Cvm/Success.antt =====
-- What `runDockerCVM` of cli/docker.go has done where it returns without an error.
use mathlib.Core.Path.{subst}
use envbox.Prelude.{
  ℤ, ◌≡◌, ◌⊎◌, refl, sym, ap, ◌∙◌, true, false, List, [], ◌∷◌, ◌++◌, append-nil, map, Bytes, Error,
  same, Result, ok, err, inl, inr, select, Bool-cases, if◌then◌else◌,
}
use envbox.Prelude.Steps.{Nil, nil}
use envbox.Xunix.Effect.{Effect}
use envbox.Xunix.Device.{device_effects}
use envbox.Xunix.Gpu.{MountPoint}
use envbox.Xunix.Mount.{Mount}
use envbox.Xunix.Sys.{CpuQuota}
use envbox.Dockerutil.Client.{AuthConfig}
use envbox.Dockerutil.Container.{docker_config, create_container}
use envbox.Dockerutil.Metadata.{ImageMetadata, get_image_metadata}
use envbox.Cli.Docker.{outer_tun_path, outer_fuse_path}
use envbox.Cli.Docker.Prepare.{
  devices_of, chowns, mounts_effects, is_shared, prepare_devices-Makes, shift_mounts-Makes,
}
use envbox.Cli.Gives.{
  Gives, Gives-return, bind_gives, given_gives, ask_gives, call_gives, Gives-embed, Gives-weaken,
  Gives-err, Gives-call, context_ok,
}
use envbox.Cli.Cvm.{
  Flags, Call, set_oom_score, prepare, pull, remount_sys, unmount_gpu_drivers, inspect_image, shift,
  find_gpus, create, prune, start, make_dir, set_quota, exec_create, exec_attach, copy_script,
  close_write, Outside, Inner, docker_auth, requested_mounts, envs_of, release_drivers, with_gpus,
  add_gpus, config_of, create_inner, copy_quota, boot_dir, run_bootstrap, start_inner, with_image,
  run_docker_cvm, parse_int32,
}

-- The calls of the bootstrap: none without a script.
abbrev pub bootstrap_calls : Bytes → Bytes → Bytes → Bytes → Bytes → List Call
bootstrap_calls id user dir [] exec = []
bootstrap_calls id user dir (c ∷ script) exec =
    exec_create id user dir ∷ exec_attach exec ∷ copy_script (c ∷ script) ∷ close_write ∷ []

-- There is an id of the bootstrap exactly where there is a script; the client gave it.
abbrev pub IsExec : Outside → Bytes → Bytes → Type 0
IsExec o [] exec = exec ≡ []
IsExec o (c ∷ script) exec = (t : List Call) × (o.exec_create t ≡ ok exec)

-- The quota of the outer container is set, and nothing is done only where it could not be read.
abbrev pub IsQuota : Outside → Bytes → List Call → Type 0
IsQuota o id calls =
    ((e : Error) × (t : List Call) × (o.cpu_quota t ≡ err e) × (calls ≡ []))
    ⊎ ((quota : CpuQuota) × (t : List Call) × (o.cpu_quota t ≡ ok quota)
        × (calls ≡ set_quota id quota ∷ []))

module _ (o : Outside) (f : Flags) where
  -- What the inner container has, before GPUs are added.
  abbrev pub plain : List Mount → Inner
  plain mounts = record {
    devices = devices_of f.add_tun f.add_fuse;
    mounts = mounts;
    envs = envs_of o f;
  }

  abbrev pub device_calls : List Effect
  device_calls =
      (if f.add_tun then device_effects outer_tun_path 10 200 else [])
      ++ ((if f.add_fuse then device_effects outer_fuse_path 10 229 else [])
          ++ (chowns (devices_of f.add_tun f.add_fuse) ++ []))

  abbrev pub driver_calls : List Call
  driver_calls = if f.add_gpu then unmount_gpu_drivers ∷ [] else []

  abbrev pub gpu_calls : List Call
  gpu_calls = if f.add_gpu then find_gpus f.host_usr_lib_dir ∷ [] else []

  -- The inner container has what GPUs need, if the flag is set.
  abbrev pub IsInner : ImageMetadata → Inner → Inner → Type 0
  IsInner meta before inner =
      ((f.add_gpu ≡ false) × (inner ≡ before))
      ⊎ ((f.add_gpu ≡ true)
          × ((t : List Call) × (found : List Bytes × List MountPoint) × (o.gpus t ≡ ok found)
              × (inner ≡ with_gpus o f meta before found)))

  -- The calls from the creation of the inner container on.
  pub record Started (meta : ImageMetadata) (inner : Inner) (exec : Bytes) (cs : List Call)
      : Type 0 where
    pub id : Bytes
    pub quota : List Call
    pub created :
        (t : List Call) × (create_container
            (λ config name. o.create t config)
            (config_of o f meta inner)
          ≡ ok id)
    pub limited : IsQuota o id quota
    pub exec_lem : IsExec o f.bootstrap_script exec
    pub calls :
        cs
        ≡ create (docker_config (config_of o f meta inner)) (config_of o f meta inner).name
          ∷ prune
          ∷ start id
          ∷ make_dir id meta.uid (boot_dir o f meta)
          ∷ (quota ++ bootstrap_calls id meta.uid (boot_dir o f meta) f.bootstrap_script exec)

  -- The calls from the metadata of the image on.
  pub record Imaged (mounts : List Mount) (exec : Bytes) (cs : List Call) : Type 0 where
    pub meta : ImageMetadata
    pub uid : ℤ
    pub gid : ℤ
    pub inner : Inner
    pub rest : List Call
    pub read :
        (t : List Call) × ((get_image_metadata (o.session t) f.inner_image f.inner_username).1
          ≡ ok meta)
    pub user : parse_int32 meta.uid ≡ ok uid
    pub group : parse_int32 meta.gid ≡ ok gid
    pub inner_lem : IsInner meta (plain mounts) inner
    pub started : Started meta inner exec rest
    pub calls :
        cs
        ≡ inspect_image f.inner_image f.inner_username
          ∷ (map shift (mounts_effects uid gid (select is_shared mounts)) ++ (gpu_calls ++ rest))

  -- All calls.
  pub record Completed (exec : Bytes) (cs : List Call) : Type 0 where
    pub auth : AuthConfig
    pub mounts : List Mount
    pub rest : List Call
    pub authed : docker_auth o f (o.registry f.inner_image) ≡ ok auth
    pub mounted : requested_mounts o f ≡ ok mounts
    pub imaged : Imaged mounts exec rest
    pub calls :
        cs
        ≡ set_oom_score
          ∷ (map prepare device_calls
              ++ (pull f.inner_image auth ∷ remount_sys ∷ (driver_calls ++ rest)))

  run_bootstrap-Gives :
      (id : Bytes) (meta : ImageMetadata) (script : Bytes)
      → Gives (run_bootstrap o f id meta script) (λ exec cs.
        IsExec o script exec × (cs ≡ bootstrap_calls id meta.uid (boot_dir o f meta) script exec))
  unfolding run_bootstrap
  run_bootstrap-Gives id meta [] = Gives-return [] _ (refl, refl)
  run_bootstrap-Gives id meta (c ∷ script) = ask_gives _ _ _ _ _ λ exec t answered.
      call_gives _ _ _ _ _ λ attached.
        call_gives _ _ _ _ _
          λ copied. call_gives _ _ _ _ _ λ closed. Gives-return exec _ ((t, answered), refl)

  copied-IsQuota :
      (id : Bytes) (t : List Call) (quota : Result CpuQuota)
      → o.cpu_quota t ≡ quota
      → (t' : List Call) (a : Nil)
      → ◌≡◌ {A = Result Nil × List Call}
          (elim quota as (λ _. Result Nil × List Call) [
            | err e ↦ (ok nil, t)
            | ok q ↦ (ok nil, t ++ set_quota id q ∷ [])
          ])
          (ok a, t')
      → (cs : List Call) × (t' ≡ t ++ cs) × IsQuota o id cs
  copied-IsQuota id t (err x) h t' a e =
      ([], sym (ap (λ p. p.1) e) ∙ sym (append-nil t), inl (x, t, h, refl))
  copied-IsQuota id t (ok q) h t' a e =
      (set_quota id q ∷ [], sym (ap (λ p. p.1) e), inr (q, t, h, refl))

  copy_quota-Gives : (id : Bytes) → Gives (copy_quota o f id) (λ a cs. IsQuota o id cs)
  unfolding copy_quota
  copy_quota-Gives id = record {
    gives = λ t t' a e. copied-IsQuota id t (o.cpu_quota t) refl t' a e;
  }

  start_inner-Gives :
      (meta : ImageMetadata) (inner : Inner)
      → Gives (start_inner o f meta inner) (Started meta inner)
  unfolding start_inner create_inner
  start_inner-Gives meta inner = ask_gives _ _ _ _ _ λ id t created. call_gives _ _ _ _ _ λ pruned.
      call_gives _ _ _ _ _ λ started. call_gives _ _ _ _ _ λ made.
        bind_gives _ _ (λ a cs. IsQuota o id cs) _ (copy_quota-Gives id)
          λ limited quota is_quota.
            Gives-weaken _ _ _ (run_bootstrap-Gives id meta f.bootstrap_script)
              λ exec cs (is_exec, e). record {
                id = id;
                quota = quota;
                created = (t, created);
                limited = is_quota;
                exec_lem = is_exec;
                calls = rw e refl;
              }

  release_drivers-Gives : Gives (release_drivers o f) (λ a cs. cs ≡ driver_calls)
  unfolding release_drivers
  release_drivers-Gives = elim (Bool-cases f.add_gpu) [
    | inr none_added ↦ rw none_added (Gives-return nil _ refl)
    | inl added ↦ elim (Bool-cases (same f.host_usr_lib_dir [])) [
      | inl empty ↦ rw (added, empty) (Gives-err _ _)
      | inr dir ↦ rw (added, dir) (Gives-call _ _ _)
    ]
  ]

  add_gpus-Gives :
      (meta : ImageMetadata) (before : Inner)
      → Gives (add_gpus o f meta before) (λ inner cs. IsInner meta before inner × (cs ≡ gpu_calls))
  unfolding add_gpus
  add_gpus-Gives meta before = elim (Bool-cases f.add_gpu) [
    | inr none_added ↦ rw none_added (Gives-return before _ (inl (refl, refl), refl))
    | inl added ↦ rw added (
        ask_gives _ _ _ _ _
          λ found t answered. Gives-return _ _ (inr (refl, (t, found, answered, refl)), refl))
  ]

  with_image-Gives :
      (mounts : List Mount)
      → Gives (with_image o f (devices_of f.add_tun f.add_fuse) mounts) (Imaged mounts)
  unfolding with_image
  with_image-Gives mounts = ask_gives _ _ _ _ _ λ meta t read. given_gives _ _ _ λ uid is_uid.
      given_gives _ _ _ λ gid is_gid.
        bind_gives _ _
          (λ a cs. (a ≡ nil) × (cs ≡ map shift (mounts_effects uid gid (select is_shared mounts))))
          _ (Gives-embed shift _ _ _ nil (λ u. shift_mounts-Makes _ uid gid mounts))
          λ shifted shifts (_, these).
            bind_gives _ _ (λ inner cs. IsInner meta (plain mounts) inner × (cs ≡ gpu_calls)) _
              (add_gpus-Gives meta (plain mounts))
              λ inner found (is_inner, those).
                Gives-weaken _ _ _ (start_inner-Gives meta inner) λ exec rest is_started. record {
                  meta = meta;
                  uid = uid;
                  gid = gid;
                  inner = inner;
                  rest = rest;
                  read = (t, read);
                  user = context_ok _ _ uid is_uid;
                  group = context_ok _ _ gid is_gid;
                  inner_lem = is_inner;
                  started = is_started;
                  calls = rw (these, those) refl;
                }

  run_docker_cvm-Gives : Gives (run_docker_cvm o f) Completed
  unfolding run_docker_cvm
  run_docker_cvm-Gives = call_gives _ _ _ _ _ λ scored. given_gives _ _ _ λ auth authed.
      given_gives _ _ _ λ mounts mounted.
        bind_gives _ _
          (λ devices cs.
            (devices ≡ devices_of f.add_tun f.add_fuse) × (cs ≡ map prepare device_calls))
          _ (Gives-embed prepare _ _ _ _ (λ t. prepare_devices-Makes _ f.add_tun f.add_fuse))
          λ devices prepared (mapped, these). call_gives _ _ _ _ _ λ pulled.
            call_gives _ _ _ _ _ λ remounted.
              bind_gives _ _ (λ a cs. cs ≡ driver_calls) _ release_drivers-Gives
                λ released drivers those.
                  subst
                    (λ ds. Gives (with_image o f ds mounts) (λ exec rest. Completed exec (
                      set_oom_score
                      ∷ (prepared ++ (pull f.inner_image auth ∷ remount_sys ∷ (drivers ++ rest))))))
                    (sym mapped)
                    (Gives-weaken _ _ _ (with_image-Gives mounts) λ exec rest is_imaged. record {
                      auth = auth;
                      mounts = mounts;
                      rest = rest;
                      authed = authed;
                      mounted = mounted;
                      imaged = is_imaged;
                      calls = rw (these, those) refl;
                    })

-- Where `runDockerCVM` returns without an error, the credentials, the mounts and the metadata of the image
-- were given, and its calls are exactly these, in order: the OOM score, the devices of the flags, the pull with
-- the credentials, the remount of /sys, the unmount of drivers if GPUs are added, the metadata, the owners of
-- all shared mounts for the user and group of the image, the search for GPUs if they are added, the inner
-- container with the mounts, devices and environment that follow, the prune, the start, the bootstrap
-- directory, the quota if it could be read, and the bootstrap, whose id is returned, if there is a script.
pub run_docker_cvm_lem :
    (o : Outside) (f : Flags) (exec : Bytes) (cs : List Call)
    → run_docker_cvm o f [] ≡ (ok exec, cs)
    → Completed o f exec cs
run_docker_cvm_lem o f exec cs e =
    let (ds, made, completed) = (run_docker_cvm-Gives o f).gives [] cs exec e in
    subst (Completed o f exec) (sym made) completed
