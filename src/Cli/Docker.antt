-- ===== src/Cli/Docker.antt =====
-- cli/docker.go: the parts of `runDockerCVM` that prepare devices and mounts, and the arguments of
-- dockerd.
pub mod Prepare
pub mod GpuMounts
mod Tests
use envbox.Prelude.{
  ℕ, ℤ, pos, ◌+◌, Bool, true, false, List, [], ◌∷◌, ◌++◌, Bytes, codes, same, quote, any, decimal,
  has_prefix, trim_prefix, trim_suffix, join_path, if◌then◌else◌, member,
}
use envbox.Xunix.Effect.{
  Effect, chmod, chown, mount_rw, Answer, Run, Nil, nil, ◌>>=◌, return, within, perform,
}
use envbox.Xunix.Device.{Device, create_tun_device, create_fuse_device}
use envbox.Xunix.Gpu.{MountPoint}
use envbox.Xunix.Mount.{Mount}
use envbox.Dockerutil.Container.{DeviceMapping}
use envbox.Cli.Mounts.{is_private_mount, is_home_dir, shifted_id, user_namespace_offset}

abbrev pub outer_tun_path : Bytes
outer_tun_path = codes "/tmp/coder-tun"

abbrev pub inner_tun_path : Bytes
inner_tun_path = codes "/dev/net/tun"

abbrev pub outer_fuse_path : Bytes
outer_fuse_path = codes "/tmp/coder-fuse"

abbrev pub inner_fuse_path : Bytes
inner_fuse_path = codes "/dev/fuse"

module _ (answer : Answer) where
  pub add_tun : Bool → List DeviceMapping → Run (List DeviceMapping)
  add_tun false devices = return devices
  add_tun true devices = do
    d ← within (codes "creat tun device") (create_tun_device answer outer_tun_path)
    return (
        devices
        ++ record {
          path_on_host = d.path;
          path_in_container = inner_tun_path;
          cgroup_permissions = codes "rwm";
        }
          ∷ [])

  pub add_fuse : Bool → List DeviceMapping → Run (List DeviceMapping)
  add_fuse false devices = return devices
  add_fuse true devices = do
    d ← within (codes "create fuse device") (create_fuse_device answer outer_fuse_path)
    return (
        devices
        ++ record {
          path_on_host = d.path;
          path_in_container = inner_fuse_path;
          cgroup_permissions = codes "rwm";
        }
          ∷ [])

  pub chown_devices : List DeviceMapping → Run Nil
  chown_devices [] = return nil
  chown_devices (d ∷ ds) = do
    owned ←
        perform answer
          (chown d.path_on_host (pos user_namespace_offset) (pos user_namespace_offset))
          (codes "chown device " ++ quote d.path_on_host)
    chown_devices ds

  -- The devices of the inner container, from the flags.
  unfoldable pub prepare_devices : Bool → Bool → Run (List DeviceMapping)
  unfolding add_tun add_fuse chown_devices
  prepare_devices tun fuse = do
    some_devices ← add_tun tun []
    devices ← add_fuse fuse some_devices
    owned ← chown_devices devices
    return devices

  module _ (uid gid : ℤ) where
    remount : Mount → Run Nil
    remount m =
        if m.read_only then perform answer (mount_rw m.source) (codes "remount") else return nil

    pub shift_mount : Mount → Run Nil
    unfolding remount
    shift_mount m = do
      writable ← remount m
      opened ← perform answer (chmod m.source 1517) (codes "chmod mountpoint " ++ quote m.source)
      perform answer
          (chown m.source (if is_home_dir m.source then shifted_id uid else shifted_id (pos 0))
            (if is_home_dir m.source then shifted_id gid else shifted_id (pos 0)))
          (codes "chown mountpoint " ++ quote m.source)

    -- The loop over the mounts, which leaves out those private to envbox.
    unfoldable pub shift_mounts : List Mount → Run Nil
    unfolding shift_mount
    shift_mounts [] = return nil
    shift_mounts (m ∷ ms) = do
      shifted ← (if is_private_mount m then return nil else shift_mount m)
      shift_mounts ms

abbrev pub mountpoints : List Mount → List Bytes
mountpoints [] = []
mountpoints (m ∷ ms) = m.mountpoint ∷ mountpoints ms

module _ (host_usr_lib_dir inner_usr_lib_dir : Bytes) where
  -- The path in the inner container of a bind.
  pub remap : Bytes → Bytes
  remap path =
      if has_prefix path host_usr_lib_dir
      then join_path
          (inner_usr_lib_dir ∷ trim_prefix path (trim_suffix host_usr_lib_dir (codes "/")) ∷ [])
      else path

  -- The loop that adds the GPU binds to the mounts, where no mount has their path yet.
  pub add_gpu_mounts : List MountPoint → List Mount → List Mount
  unfolding remap
  add_gpu_mounts [] mounts = mounts
  add_gpu_mounts (b ∷ binds) mounts = add_gpu_mounts binds (
      if member (remap b.path) (mountpoints mounts)
      then mounts
      else mounts
        ++ record {
          source = b.path;
          mountpoint = remap b.path;
          read_only = any b.opts (same (codes "ro"));
        }
          ∷ [])

-- `dockerdArgs` behind the MTU of the link and the address of the bridge.
pub dockerd_args : ℕ → Bytes → ℕ → Bool → List Bytes
dockerd_args mtu docker_bip prefix_len is_no_space =
    (codes "--debug"
      ∷ codes "--log-level=debug"
      ∷ (codes "--mtu=" ++ decimal mtu)
      ∷ codes "--userns-remap=coder"
      ∷ codes "--storage-driver=overlay2"
      ∷ (codes "--bip=" ++ docker_bip ++ codes "/" ++ decimal prefix_len)
      ∷ [])
    ++ (if is_no_space
        then codes "--data-root=/var/lib/docker.bak" ∷ codes "--storage-driver=vfs" ∷ []
        else [])
