-- ===== src/Cli/Docker/Tests.antt =====
-- Runs of the parts of `runDockerCVM`, and the theorems at concrete flags and mounts.
use envbox.Prelude.{
  pos, ℕ, ◌≡◌, refl, Bool, true, false, List, [], ◌∷◌, ◌++◌, Option, none, some, Bytes, codes,
  Error, failure, Result, ok, err, select, member, Distinct, arith, if◌then◌else◌, decimal,
  has_prefix, trim_prefix, trim_suffix, join_path,
}
use envbox.Xunix.Effect.{chmod, Answer, nil}
use envbox.Xunix.Effect.Makes.{Makes}
use envbox.Xunix.Device.{device_effects}
use envbox.Xunix.Gpu.{MountPoint}
use envbox.Xunix.Mount.{Mount}
use envbox.Cli.Mounts.{default_mounts}
use envbox.Cli.Docker.{
  prepare_devices, shift_mounts, add_gpu_mounts, remap, mountpoints, dockerd_args, outer_tun_path,
  outer_fuse_path,
}
use envbox.Cli.Docker.Prepare.{
  devices_of, chowns, mounts_effects, is_shared, prepare_devices-Makes, shift_mounts-Makes,
}
use envbox.Cli.Docker.GpuMounts.{remapped, add_gpu_mounts-Distinct}

-- Every call succeeds but a chmod.
abbrev no_chmod : Answer
no_chmod t (chmod path mode) = some (failure (codes "read-only file system"))
no_chmod t _ = none

abbrev home : Mount
home = record { source = codes "/home/coder"; mountpoint = codes "/home/coder"; read_only = true }

args_run :
    dockerd_args 1500 (codes "172.19.0.1") 30 false
    ≡ codes "--debug"
      ∷ codes "--log-level=debug"
      ∷ codes "--mtu=1500"
      ∷ codes "--userns-remap=coder"
      ∷ codes "--storage-driver=overlay2"
      ∷ codes "--bip=172.19.0.1/30"
      ∷ []
unfolding dockerd_args decimal
args_run = refl

remap_run :
    remap (codes "/var/coder/usr/lib") (codes "/usr/lib64") (codes "/var/coder/usr/lib/libcuda.so")
    ≡ codes "/usr/lib64/libcuda.so"
unfolding remap has_prefix join_path envbox.Prelude.join envbox.Prelude.split trim_prefix
    trim_suffix envbox.Prelude.same
remap_run = refl

prepare_devices-Makes_run :
    Makes no_chmod
      (prepare_devices no_chmod true true)
      (device_effects outer_tun_path 10 200
        ++ (device_effects outer_fuse_path 10 229 ++ (chowns (devices_of true true) ++ [])))
      (devices_of true true)
prepare_devices-Makes_run = prepare_devices-Makes no_chmod true true

shift_mounts-Makes_example :
    Makes no_chmod
      (shift_mounts no_chmod (pos 1000) (pos 1000) (default_mounts ++ home ∷ []))
      (mounts_effects (pos 1000) (pos 1000) (select is_shared (default_mounts ++ home ∷ [])))
      nil
shift_mounts-Makes_example =
    shift_mounts-Makes no_chmod (pos 1000) (pos 1000) (default_mounts ++ home ∷ [])

abbrev gpu_binds : List MountPoint
gpu_binds =
    record { path = codes "/host/lib/libcuda.so"; opts = codes "ro" ∷ [] }
    ∷ record { path = codes "/home/coder"; opts = [] }
    ∷ []

add_gpu_mounts-Distinct_example :
    (new : List Mount) × (add_gpu_mounts
        (codes "/host/lib")
        (codes "/usr/lib")
        gpu_binds
        (home ∷ [])
      ≡ home ∷ new)
    × Distinct (mountpoints (home ∷ new))
    × ((n : Bytes)
        → member n (remapped (codes "/host/lib") (codes "/usr/lib") gpu_binds) ≡ true
        → member n (mountpoints (home ∷ new)) ≡ true)
add_gpu_mounts-Distinct_example =
    add_gpu_mounts-Distinct (codes "/host/lib") (codes "/usr/lib") gpu_binds (home ∷ []) (refl, tt)
