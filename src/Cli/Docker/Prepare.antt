-- ===== src/Cli/Docker/Prepare.antt =====
-- Which calls `runDockerCVM` of cli/docker.go makes to prepare devices and mounts.
use mathlib.Core.Path.{subst}
use envbox.Prelude.{
  suc, ◌-◌, ℤ, pos, negsuc, ◌+ℤ◌, ltb, arith, ◌≡◌, refl, ap, ap₂, Bool, true, false, not, List, [],
  ◌∷◌, ◌++◌, codes, select, select_keep, select_skip, Bool-cases, inl, inr, if◌then◌else◌,
}
use envbox.Xunix.Effect.{Effect, chmod, chown, mount_rw, Answer, nil}
use envbox.Xunix.Effect.Makes.{Makes, Makes-bind, Makes-perform, Makes-within, Makes-return}
use envbox.Xunix.Device.{device_effects, create_tun_device-Makes, create_fuse_device-Makes}
use envbox.Xunix.Mount.{Mount}
use envbox.Cli.Mounts.{is_private_mount, is_home_dir, shifted_id, user_namespace_offset}
use envbox.Dockerutil.Container.{DeviceMapping}
use envbox.Cli.Docker.{
  outer_tun_path, outer_fuse_path, inner_tun_path, inner_fuse_path, add_tun, add_fuse,
  chown_devices, prepare_devices, remount, shift_mount, shift_mounts,
}

-- The owner of a mount in the inner container, with the offset of its user namespace: the user for a home
-- directory, and root otherwise.
abbrev pub owner : ℤ → Mount → ℤ
owner id m = if is_home_dir m.source then id +ℤ pos 100000 else pos 100000

shifted_id-add : (id : ℤ) → shifted_id id ≡ id +ℤ pos 100000
unfolding shifted_id
shifted_id-add (pos n) = refl
shifted_id-add (negsuc n) = elim (Bool-cases (ltb n 100000)) [
  | inl below ↦
      let not_less : ltb 100000 (suc n) ≡ false = ground arith in rw (below, not_less) refl
  | inr above ↦
      let less : ltb 100000 (suc n) ≡ true = ground arith in
      let rest : n - 100000 ≡ suc n - suc 100000 = omega arith in rw (above, less) (ap negsuc rest)
]

owner_lem :
    (id : ℤ) (m : Mount)
    → (if is_home_dir m.source then shifted_id id else shifted_id (pos 0)) ≡ owner id m
owner_lem id m =
    ap₂ (λ a c. if is_home_dir m.source then a else c) (shifted_id-add id) (shifted_id-add (pos 0))

-- The calls for a mount: it is made writable if it is read-only, opened, and given to its owner.
abbrev pub mount_effects : ℤ → ℤ → Mount → List Effect
mount_effects uid gid m =
    (if m.read_only then mount_rw m.source ∷ [] else [])
    ++ chmod m.source 1517 ∷ chown m.source (owner uid m) (owner gid m) ∷ []

abbrev pub mounts_effects : ℤ → ℤ → List Mount → List Effect
mounts_effects uid gid [] = []
mounts_effects uid gid (m ∷ ms) = mount_effects uid gid m ++ mounts_effects uid gid ms

-- A mount that is not private to envbox.
abbrev pub is_shared : Mount → Bool
is_shared m = not (is_private_mount m)

module _ (answer : Answer) (uid gid : ℤ) where
  remount-Makes :
      (m : Mount)
      → Makes answer
          (remount answer uid gid m)
          (if m.read_only then mount_rw m.source ∷ [] else [])
          nil
  unfolding remount
  remount-Makes m = elim (Bool-cases m.read_only) [
    | inl read_only ↦ rw read_only (Makes-perform answer (mount_rw m.source) (codes "remount"))
    | inr writable ↦ rw writable (Makes-return answer nil)
  ]

  shift_mount-Makes :
      (m : Mount) → Makes answer (shift_mount answer uid gid m) (mount_effects uid gid m) nil
  unfolding shift_mount
  shift_mount-Makes m =
      let chowned : ℤ → ℤ → List Effect = λ a c.
        (if m.read_only then mount_rw m.source ∷ [] else [])
        ++ chmod m.source 1517 ∷ chown m.source a c ∷ [] in
      subst (λ es. Makes answer (shift_mount answer uid gid m) es nil)
        (ap₂ chowned (owner_lem uid m) (owner_lem gid m))
        (Makes-bind answer (λ writable. _) (remount-Makes m)
          (Makes-bind answer (λ opened. _) (Makes-perform answer _ _) (Makes-perform answer _ _)))

-- The devices for the flags.
abbrev pub devices_of : Bool → Bool → List DeviceMapping
devices_of tun fuse =
    (if tun
      then record {
        path_on_host = outer_tun_path;
        path_in_container = inner_tun_path;
        cgroup_permissions = codes "rwm";
      }
        ∷ []
      else [])
    ++ (if fuse
        then record {
          path_on_host = outer_fuse_path;
          path_in_container = inner_fuse_path;
          cgroup_permissions = codes "rwm";
        }
          ∷ []
        else [])

abbrev pub chowns : List DeviceMapping → List Effect
chowns [] = []
chowns (d ∷ ds) =
    chown d.path_on_host (pos user_namespace_offset) (pos user_namespace_offset) ∷ chowns ds

module _ (answer : Answer) where
  chown_devices-Makes :
      (ds : List DeviceMapping) → Makes answer (chown_devices answer ds) (chowns ds) nil
  unfolding chown_devices
  chown_devices-Makes [] = Makes-return answer nil
  chown_devices-Makes (d ∷ ds) =
      Makes-bind answer (λ owned. chown_devices answer ds) (Makes-perform answer _ _)
        (chown_devices-Makes ds)

  add_tun-Makes :
      (tun : Bool)
      → Makes answer
          (add_tun answer tun [])
          (if tun then device_effects outer_tun_path 10 200 else [])
          (devices_of tun false)
  unfolding add_tun
  add_tun-Makes false = Makes-return answer []
  add_tun-Makes true =
      Makes-bind answer (λ d. _)
        (Makes-within answer _ (create_tun_device-Makes answer outer_tun_path))
        (Makes-return answer _)

  add_fuse-Makes :
      (tun fuse : Bool)
      → Makes answer
          (add_fuse answer fuse (devices_of tun false))
          (if fuse then device_effects outer_fuse_path 10 229 else [])
          (devices_of tun fuse)
  unfolding add_fuse
  add_fuse-Makes tun false = Makes-return answer _
  add_fuse-Makes true true =
      Makes-bind answer (λ d. _)
        (Makes-within answer _ (create_fuse_device-Makes answer outer_fuse_path))
        (Makes-return answer _)
  add_fuse-Makes false true =
      Makes-bind answer (λ d. _)
        (Makes-within answer _ (create_fuse_device-Makes answer outer_fuse_path))
        (Makes-return answer _)

-- The devices that the flags ask for are created, the TUN device first, each with its directory, node
-- and mode; then each is given to the root user of the inner container. The first call that fails ends
-- the preparation with an error, and no other does. The result has one mapping for each flag.
pub prepare_devices-Makes :
    (answer : Answer) (tun fuse : Bool)
    → Makes answer
        (prepare_devices answer tun fuse)
        ((if tun then device_effects outer_tun_path 10 200 else [])
          ++ ((if fuse then device_effects outer_fuse_path 10 229 else [])
              ++ (chowns (devices_of tun fuse) ++ [])))
        (devices_of tun fuse)
unfolding prepare_devices
prepare_devices-Makes answer tun fuse =
    Makes-bind answer (λ some_devices. _) (add_tun-Makes answer tun)
      (Makes-bind answer (λ devices. _) (add_fuse-Makes answer tun fuse)
        (Makes-bind answer (λ owned. _) (chown_devices-Makes answer (devices_of tun fuse))
          (Makes-return answer _)))

-- The loop over the mounts touches all that are not private to envbox, in order and no others. A
-- read-only mount is first made writable; each is opened with the mode 02755 and given to its owner, the
-- user for a home directory and root otherwise, with 100000 added to each id. The first call that fails ends
-- the loop with an error, and no other does.
pub shift_mounts-Makes :
    (answer : Answer) (uid gid : ℤ) (ms : List Mount)
    → Makes answer
        (shift_mounts answer uid gid ms)
        (mounts_effects uid gid (select is_shared ms))
        nil
unfolding shift_mounts
shift_mounts-Makes answer uid gid [] = Makes-return answer nil
shift_mounts-Makes answer uid gid (m ∷ ms) =
    let rest = shift_mounts-Makes answer uid gid ms in
    elim (Bool-cases (is_private_mount m)) [
      | inl private ↦
          rw (select_skip is_shared m ms (ap not private), private)
            (Makes-bind answer (λ shifted. shift_mounts answer uid gid ms) (Makes-return answer nil)
              rest)
      | inr shared ↦
          rw (select_keep is_shared m ms (ap not shared), shared)
            (Makes-bind answer (λ shifted. shift_mounts answer uid gid ms)
              (shift_mount-Makes answer uid gid m) rest)
    ]
