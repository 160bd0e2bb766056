-- ===== src/Xunix/Gpu.antt =====
-- xunix/gpu.go: `GPUEnvs`, `GPUs`, `usrLibGPUs` and `TryUnmountProcGPUDrivers`, on ASCII texts.
--
-- The mounts, the walk through a directory and the answers to unmounting are parameters. Of a mount
-- point of k8s.io/mount-utils the model has the fields that the program reads and sets.
pub mod SharedObject
pub mod Binds
pub mod Unmount
mod Tests
use envbox.Prelude.{
  ℕ, zero, suc, ◌+◌, Bool, true, false, not, ◌&&◌, ◌||◌, List, [], ◌∷◌, ◌++◌, Option, none, some,
  Bytes, codes, same, contains, to_lower, has_prefix, drop, split, any, member, Error, wrap, Result,
  ok, err, ◌>>=◌, context, quote, if◌then◌else◌, leb, ltb, ◌==◌, map,
}
use envbox.Xunix.Symlinks.{Links, recursive_symlinks}

pub record MountPoint : Type 0 where
  pub path : Bytes
  pub opts : List Bytes

-- `gpuMountRegex`
pub gpu_mount : Bytes → Bool
gpu_mount s =
    let t = to_lower s in
    contains t (codes "nvidia") || contains t (codes "vulkan") || contains t (codes "cuda")

-- `gpuExtraRegex`
pub gpu_extra : Bytes → Bool
unfolding gpu_mount
gpu_extra s =
    let t = to_lower s in
    contains t (codes "libgle")
    || contains t (codes "libglsx")
    || contains t (codes "libgl.")
    || gpu_mount s

-- `gpuEnvRegex`
gpu_env : Bytes → Bool
gpu_env s = contains (to_lower s) (codes "nvidia")

digits_and_dots : Bytes → Bool
digits_and_dots [] = true
digits_and_dots (c ∷ s) = ((leb b'0' c && leb c b'9') || c == b'.') && digits_and_dots s

-- A version behind `.so`, to the end of the text: nothing, or a dot and one or more digits and dots.
version : Bytes → Bool
unfolding digits_and_dots
version [] = true
version (d ∷ []) = false
version (d ∷ c ∷ s) = d == b'.' && digits_and_dots (c ∷ s)

-- `sharedObjectRegex`
pub shared_object : Bytes → Bool
unfolding version
shared_object [] = false
shared_object (c ∷ s) =
    (has_prefix (c ∷ s) (codes ".so") && version (drop 3 (c ∷ s))) || shared_object s

first : List Bytes → Bytes
first [] = []
first (s ∷ _) = s

pub gpu_envs : List Bytes → List Bytes
unfolding gpu_env first
gpu_envs [] = []
gpu_envs (env ∷ envs) =
    let gpus = gpu_envs envs in if gpu_env (first (split env b'=')) then env ∷ gpus else gpus

read_only_mount : Bytes → MountPoint
read_only_mount path = record { path = path; opts = codes "ro" ∷ [] }

-- A call of the function given to `afero.Walk`: a path, and the error met there.
abbrev pub Visit : Type 0
Visit = Bytes × Option Error

module _ (fs : Links) (fuel : ℕ) (usr_lib_dir : Bytes) where
  -- The paths of one visit, or none after an error that is logged.
  paths_of : Bytes → Option (List Bytes)
  paths_of path =
      if not (gpu_extra path)
      then some []
      else if not (shared_object path)
      then some []
      else elim (recursive_symlinks fs fuel usr_lib_dir path) [
        | none ↦ none
        | some (ok paths) ↦ some paths
        | some (err e) ↦ some []
      ]

  walk : List Visit → List Bytes → Option (Result (List Bytes))
  unfolding paths_of
  walk [] binds = some (ok binds)
  walk ((path, some e) ∷ visits) binds =
      if same path usr_lib_dir
      then some (err (wrap (codes "stat /usr/lib mountpoint " ++ quote usr_lib_dir) e))
      else walk visits binds
  walk ((path, none) ∷ visits) binds = elim (paths_of path) [
    | none ↦ none
    | some paths ↦ walk visits (binds ++ paths)
  ]

  pub usr_lib_gpus : List Visit → Option (Result (List MountPoint))
  unfolding walk read_only_mount
  usr_lib_gpus visits = elim (walk visits []) [
    | none ↦ none
    | some (err e) ↦
        some (err (wrap (codes "walk " ++ quote usr_lib_dir ++ codes " for GPU drivers") e))
    | some (ok binds) ↦ some (ok (map read_only_mount binds))
  ]

-- The devices and the binds of the mounts, where `same_dir` is `SameDirSymlinks`.
pub mount_gpus :
    (Bytes → Result (List Bytes))
    → List MountPoint
    → List Bytes × List MountPoint
    → List Bytes × List MountPoint
unfolding read_only_mount gpu_mount
mount_gpus same_dir [] (devices, binds) = (devices, binds)
mount_gpus same_dir (m ∷ mounts) (devices, binds) =
    let links : List MountPoint = elim (same_dir m.path) [
      | ok ls ↦ map read_only_mount ls
      | err e ↦ []
    ] in
    mount_gpus same_dir mounts (
      if gpu_mount m.path
      then if has_prefix m.path (codes "/dev/")
        then (devices ++ m.path ∷ [], binds)
        else (devices, (binds ++ m ∷ []) ++ links)
      else (devices, binds))

abbrev pub paths : List MountPoint → List Bytes
paths [] = []
paths (m ∷ ms) = m.path ∷ paths ms

-- The extra GPUs that no bind has yet.
pub add_extra : List MountPoint → List MountPoint → List MountPoint
add_extra [] binds = binds
add_extra (gpu ∷ gpus) binds =
    add_extra gpus (if any (paths binds) (same gpu.path) then binds else binds ++ gpu ∷ [])

-- `GPUs`, with `none` where a chain of links needs more rounds than the fuel.
pub gpus :
    Result (List MountPoint)
    → (Bytes → Result (List Bytes))
    → Bytes
    → Option (Result (List MountPoint))
    → Option (Result (List Bytes × List MountPoint))
unfolding mount_gpus add_extra
gpus (err e) same_dir usr_lib_dir extra = some (err (wrap (codes "list mounts") e))
gpus (ok mounts) same_dir usr_lib_dir none = none
gpus (ok mounts) same_dir usr_lib_dir (some (err e)) =
    some (err (wrap (codes "find " ++ quote usr_lib_dir ++ codes " gpus") e))
gpus (ok mounts) same_dir usr_lib_dir (some (ok extra)) =
    let (devices, binds) = mount_gpus same_dir mounts ([], []) in
    some (ok (devices, add_extra extra binds))

-- `strings.Count(path, "/")`
pub slashes : Bytes → ℕ
slashes [] = 0
slashes (c ∷ s) = let n = slashes s in if c == b'/' then suc n else n

-- The loop over the sorted mounts: the mounts that are gone, and the paths that were unmounted or
-- tried. `unmount` answers for a path behind the paths before it.
pub unmount_each :
    (List Bytes → Bytes → Option Error)
    → List MountPoint
    → List Bytes
    → List MountPoint × List Bytes
unfolding gpu_mount
unmount_each unmount [] tried = ([], tried)
unmount_each unmount (m ∷ mounts) tried =
    let rest = unmount_each unmount mounts (tried ++ m.path ∷ []) in
    let skip = unmount_each unmount mounts tried in
    if has_prefix m.path (codes "/proc/") && gpu_mount m.path
    then elim (unmount tried m.path) [ some e ↦ rest | none ↦ (m ∷ rest.0, rest.1) ]
    else skip

-- The function that `sort.Slice` is given: paths with more slashes are less.
pub deeper : MountPoint → MountPoint → Bool
deeper a b = ltb (slashes b.path) (slashes a.path)

-- `TryUnmountProcGPUDrivers`, where `sort` is `sort.Slice`.
pub try_unmount_proc_gpu_drivers :
    ((MountPoint → MountPoint → Bool) → List MountPoint → List MountPoint)
    → (List Bytes → Bytes → Option Error)
    → Result (List MountPoint)
    → Result (List MountPoint) × List Bytes
unfolding unmount_each deeper
try_unmount_proc_gpu_drivers sort unmount (err e) = (err (wrap (codes "list mounts") e), [])
try_unmount_proc_gpu_drivers sort unmount (ok mounts) =
    let (drivers, tried) = unmount_each unmount (sort deeper mounts) [] in (ok drivers, tried)
