-- ===== src/Cli/Cvm/Order.antt =====
-- In which order `runDockerCVM` of cli/docker.go makes its calls, on all its runs.
use mathlib.Core.Path.{subst}
use envbox.Prelude.{
  ◌≡◌, refl, sym, not, List, [], ◌∷◌, ◌++◌, append-nil, Bytes, same, Result, ok, err, arith,
  Bool-cases, inl, inr,
}
use envbox.Prelude.Steps.{Nil, nil, Step, embed}
use envbox.Xunix.Effect.{Effect}
use envbox.Xunix.Mount.{Mount}
use envbox.Xunix.Sys.{CpuQuota}
use envbox.Dockerutil.Container.{DeviceMapping}
use envbox.Dockerutil.Metadata.{ImageMetadata}
use envbox.Cli.Cvm.{
  Flags, Call, set_oom_score, prepare, pull, remount_sys, unmount_gpu_drivers, inspect_image, shift,
  find_gpus, create, prune, start, make_dir, set_quota, exec_create, exec_attach, copy_script,
  close_write, Outside, Inner, release_drivers, add_gpus, create_inner, copy_quota, run_bootstrap,
  start_inner, with_image, run_docker_cvm,
}
use envbox.Cli.Cvm.Phases.{
  Ordered, Adds, Adds-given, Adds-call, Adds-bind, Adds-embed, given_then, call_then, ask_then,
}

module _ (o : Outside) (f : Flags) where
  release_drivers-Adds : Adds 4 5 (release_drivers o f)
  unfolding release_drivers
  release_drivers-Adds = elim (Bool-cases (not f.add_gpu)) [
    | inl none_added ↦ rw none_added (Adds-given 4 5 (ok nil) (omega arith))
    | inr added ↦ elim (Bool-cases (same f.host_usr_lib_dir [])) [
      | inl empty ↦ rw (added, empty) (Adds-given 4 5 _ (omega arith))
      | inr dir ↦
          rw (added, dir) (Adds-call 4 5 _ unmount_gpu_drivers _ (omega arith) (omega arith))
    ]
  ]

  add_gpus-Adds : (meta : ImageMetadata) (inner : Inner) → Adds 7 8 (add_gpus o f meta inner)
  unfolding add_gpus
  add_gpus-Adds meta inner = elim (Bool-cases (not f.add_gpu)) [
    | inl none_added ↦ rw none_added (Adds-given 7 8 (ok inner) (omega arith))
    | inr added ↦ rw added (
        ask_then 7 8 _ (find_gpus f.host_usr_lib_dir) (omega arith) (omega arith) _ _
          (λ found. Adds-given 8 8 _ (omega arith)))
  ]

  quota_added :
      (id : Bytes) (t : List Call) (quota : Result CpuQuota)
      → (cs : List Call) × ((elim quota as (λ _. Result Nil × List Call) [
        | err e ↦ (ok nil, t)
        | ok q ↦ (ok nil, t ++ set_quota id q ∷ [])
      ]).1
          ≡ t ++ cs)
        × Ordered 12 13 cs
  quota_added id t (err e) = ([], sym (append-nil t), omega arith)
  quota_added id t (ok q) = (set_quota id q ∷ [], refl, omega arith)

  copy_quota-Adds : (id : Bytes) → Adds 12 13 (copy_quota o f id)
  unfolding copy_quota
  copy_quota-Adds id = record { added = λ t. quota_added id t (o.cpu_quota t) }

  run_bootstrap-Adds :
      (id : Bytes) (meta : ImageMetadata) (script : Bytes)
      → Adds 13 17 (run_bootstrap o f id meta script)
  unfolding run_bootstrap
  run_bootstrap-Adds id meta [] = Adds-given 13 17 (ok []) (omega arith)
  run_bootstrap-Adds id meta (c ∷ script) =
      ask_then 13 17 _ (exec_create id meta.uid _) (omega arith) (omega arith) _ _ λ exec.
        call_then 14 17 _ (exec_attach exec) (omega arith) (omega arith) _ _ λ attached.
          call_then 15 17 _ (copy_script (c ∷ script)) (omega arith) (omega arith) _ _ λ copied.
            call_then 16 17 _ close_write (omega arith) (omega arith) _ _
              λ closed. Adds-given 17 17 _ (omega arith)

  start_inner-Adds : (meta : ImageMetadata) (inner : Inner) → Adds 8 17 (start_inner o f meta inner)
  unfolding start_inner create_inner
  start_inner-Adds meta inner = ask_then 8 17 _ (create _ _) (omega arith) (omega arith) _ _ λ id.
      call_then 9 17 _ prune (omega arith) (omega arith) _ _ λ pruned.
        call_then 10 17 _ (start id) (omega arith) (omega arith) _ _ λ started.
          call_then 11 17 _ (make_dir id meta.uid _) (omega arith) (omega arith) _ _ λ made.
            Adds-bind 12 13 17 _ _ (omega arith) (copy_quota-Adds id)
              λ limited. run_bootstrap-Adds id meta f.bootstrap_script

  shifts-Adds : (run : List Call → Step Effect Nil) → Adds 6 7 (embed shift run)
  shifts-Adds run = Adds-embed 6 7 shift run (λ e. (refl, refl)) (omega arith)

  with_image-Adds :
      (devices : List DeviceMapping) (mounts : List Mount)
      → Adds 5 17 (with_image o f devices mounts)
  unfolding with_image
  with_image-Adds devices mounts =
      ask_then 5 17 _ (inspect_image _ _) (omega arith) (omega arith) _ _ λ meta.
        given_then 6 17 _ _ (omega arith) λ uid. given_then 6 17 _ _ (omega arith) λ gid.
          Adds-bind 6 7 17 _ _ (omega arith) (shifts-Adds _) λ shifted.
            Adds-bind 7 8 17 _ _ (omega arith) (add_gpus-Adds meta _)
              λ inner. start_inner-Adds meta inner

  run_docker_cvm-Adds : Adds 0 17 (run_docker_cvm o f)
  unfolding run_docker_cvm
  run_docker_cvm-Adds = call_then 0 17 _ set_oom_score (omega arith) (omega arith) _ _ λ scored.
      given_then 1 17 _ _ (omega arith) λ auth. given_then 1 17 _ _ (omega arith) λ mounts.
        Adds-bind 1 2 17 _ _ (omega arith)
          (Adds-embed 1 2 prepare _ (λ e. (refl, refl)) (omega arith))
          λ devices.
            call_then 2 17 _ (pull f.inner_image auth) (omega arith) (omega arith) _ _ λ pulled.
              call_then 3 17 _ remount_sys (omega arith) (omega arith) _ _ λ mounted.
                Adds-bind 4 5 17 _ _ (omega arith) release_drivers-Adds
                  λ released. with_image-Adds devices mounts

-- Whatever is outside answers, the calls of `runDockerCVM` are in one order, also where it returns an
-- error: the OOM score, devices, the pull of the image, the remount of /sys, the drivers in /proc, the
-- metadata, the owners of mounts, the search for GPUs, the container, the prune, the start, the bootstrap
-- directory, the quota, and the bootstrap script. But for those on devices and on mounts each is made at
-- most once.
pub run_docker_cvm-Ordered : (o : Outside) (f : Flags) → Ordered 0 17 (run_docker_cvm o f []).1
run_docker_cvm-Ordered o f =
    let (cs, made, ordered) = (run_docker_cvm-Adds o f).added [] in
    subst (Ordered 0 17) (sym made) ordered
