-- ===== src/Xunix/Gpu/Tests.antt =====
-- Runs of the GPU functions of xunix/gpu.go, and the theorems at concrete mounts.
use mathlib.Core.List.{Permᴰ}
use envbox.Prelude.Sort.{sort_by, sort_by-IsSort}
use envbox.Prelude.{
  ℕ, ◌≤◌, ◌≡◌, ◌↔◌, refl, Bool, true, false, List, [], ◌∷◌, Option, none, some, Bytes, codes, same,
  Error, failure, Result, ok, err, arith, if◌then◌else◌, Distinct, select, contains, to_lower,
  has_prefix, has_suffix, join, split, quote,
}
use envbox.Xunix.Symlinks.{recursive_symlinks, follow_links, follow, with_slash}
use envbox.Xunix.Gpu.{
  MountPoint, gpu_envs, gpu_mount, gpus, mount_gpus, add_extra, usr_lib_gpus, shared_object,
  slashes, try_unmount_proc_gpu_drivers, paths, unmount_each,
}
use envbox.Xunix.Gpu.SharedObject.{IsSharedObject, shared_object_iff}
use envbox.Xunix.Gpu.Unmount.{is_proc_gpu, IsDeepFirst, gone, try_unmount_proc_gpu_drivers_lem}

abbrev at : Bytes → MountPoint
at path = record { path = path; opts = codes "ro" ∷ [] }

abbrev mounts : List MountPoint
mounts = at (codes "/dev/nvidia0") ∷ at (codes "/lib/libcuda.so.1") ∷ at (codes "/etc/hosts") ∷ []

abbrev extra : List MountPoint
extra = at (codes "/lib/libcuda.so.1") ∷ at (codes "/lib/libGLX_nvidia.so.0") ∷ []

abbrev no_links : Bytes → Result (List Bytes)
no_links path = ok (codes "/lib/libcuda.so" ∷ [])

gpu_envs_run :
    gpu_envs (codes "NVIDIA_DRIVER=1" ∷ codes "PATH=nvidia" ∷ []) ≡ codes "NVIDIA_DRIVER=1" ∷ []
unfolding gpu_envs contains to_lower envbox.Prelude.split
gpu_envs_run = refl

gpus_run :
    gpus (ok mounts) no_links (codes "/lib") (some (ok extra))
    ≡ some (
        ok (
          codes "/dev/nvidia0" ∷ [],
          at (codes "/lib/libcuda.so.1")
              ∷ at (codes "/lib/libcuda.so")
              ∷ at (codes "/lib/libGLX_nvidia.so.0")
              ∷ [],
        ))
unfolding gpus contains to_lower same
gpus_run = refl

-- A library with no links, and a file that is none, below /lib.
usr_lib_run :
    usr_lib_gpus
      (record { lstat = λ p. ok false; readlink = λ p. ok [] })
      2
      (codes "/lib")
      ((codes "/lib", none) ∷ (codes "/lib/libcuda.so", none) ∷ (codes "/lib/cuda.txt", none) ∷ [])
    ≡ some (ok (at (codes "/lib/libcuda.so") ∷ []))
unfolding usr_lib_gpus shared_object contains to_lower has_prefix has_suffix same recursive_symlinks
    follow_links follow with_slash envbox.Xunix.Gpu.gpu_extra
usr_lib_run = refl

shared_object_iff_run :
    (shared_object (codes "/lib/libcuda.so.535.1") ≡ true)
    ↔ IsSharedObject (codes "/lib/libcuda.so.535.1")
shared_object_iff_run = shared_object_iff (codes "/lib/libcuda.so.535.1")

abbrev proc_mounts : List MountPoint
proc_mounts =
    at (codes "/proc/driver/nvidia")
    ∷ at (codes "/etc")
    ∷ at (codes "/proc/driver/nvidia/gpus/0")
    ∷ []

-- The first unmounting fails.
abbrev unmount : List Bytes → Bytes → Option Error
unmount [] path = some (failure (codes "busy"))
unmount (_ ∷ _) path = none

-- The deeper path is tried first.
unmount_run : try_unmount_proc_gpu_drivers sort_by unmount (ok proc_mounts) ≡ (
  ok (at (codes "/proc/driver/nvidia") ∷ []),
  codes "/proc/driver/nvidia/gpus/0" ∷ codes "/proc/driver/nvidia" ∷ [],
)
unfolding try_unmount_proc_gpu_drivers slashes contains to_lower has_prefix
unmount_run = refl

try_unmount_proc_gpu_drivers_lem_example :
    (drivers : List MountPoint) × (try_unmount_proc_gpu_drivers sort_by unmount (ok proc_mounts)
      ≡ (ok (gone unmount drivers []), paths drivers))
    × Permᴰ drivers (select is_proc_gpu proc_mounts)
    × IsDeepFirst drivers
try_unmount_proc_gpu_drivers_lem_example =
    try_unmount_proc_gpu_drivers_lem sort_by unmount proc_mounts sort_by-IsSort
