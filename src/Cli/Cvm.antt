-- ===== src/Cli/Cvm.antt =====
-- cli/docker.go: `runDockerCVM` as a whole.
--
-- What is outside answers in view of the calls before: the file system, the mounter, the Docker client
-- and the functions of the packages xunix and dockerutil that are modelled on their own. A value that is
-- read and changes nothing is no call. Of the bootstrap script's output, which a goroutine copies to the
-- log behind the return, there is nothing.
pub mod Order
mod Phases
pub mod Success
pub mod Auth
pub mod Sample
mod Tests
use envbox.Prelude.{
  ℕ, ◌^◌, ltb, ℤ, pos, negsuc, Bool, true, false, not, List, [], ◌∷◌, ◌++◌, map, Option, none, some,
  Bytes, codes, same, split, quote, Error, failure, wrap, is_cause, not_exist, Result, ok, err,
  context, if◌then◌else◌, join_path, atoi,
}
use envbox.Xunix.Effect.{Effect, Answer}
use envbox.Xunix.Mount.{Mount}
use envbox.Xunix.Sys.{CpuQuota}
use envbox.Xunix.Gpu.{MountPoint, gpu_envs}
use envbox.Dockerutil.Client.{
  AuthConfig, AuthEntry, Config, auth_config_from_path, auth_config_from_string,
}
use envbox.Dockerutil.Container.{
  DeviceMapping, ContainerConfig, DockerConfig, docker_config, create_container,
}
use envbox.Dockerutil.Metadata.{ImageMetadata, ImageSession, get_image_metadata, usr_lib_dir}
use envbox.Cli.Mounts.{parse_mounts, default_mounts}
use envbox.Cli.Envs.{default_container_envs, filter_elements}
use envbox.Cli.Docker.{prepare_devices, shift_mounts, add_gpu_mounts}
use envbox.Prelude.Steps.{Nil, nil, Step, ◌>>=◌, return, given, call, ask, embed}

-- The flags that the function reads. Numbers are the bits of an int64.
pub record Flags : Type 0 where
  pub inner_image : Bytes
  pub inner_username : Bytes
  pub agent_token : Bytes
  pub inner_envs : Bytes
  pub inner_work_dir : Bytes
  pub inner_hostname : Bytes
  pub image_pull_secret : Bytes
  pub add_tun : Bool
  pub add_fuse : Bool
  pub add_gpu : Bool
  pub bootstrap_script : Bytes
  pub container_mounts : Bytes
  pub host_usr_lib_dir : Bytes
  pub inner_usr_lib_dir : Bytes
  pub docker_config : Bytes
  pub cpus : ℕ
  pub memory : ℕ

pub data Call : Type 0 where
  set_oom_score : Call
  -- on a device, and on a mount
  prepare : Effect → Call
  pull : Bytes → AuthConfig → Call
  remount_sys : Call
  unmount_gpu_drivers : Call
  inspect_image : Bytes → Bytes → Call
  shift : Effect → Call
  find_gpus : Bytes → Call
  create : DockerConfig → Bytes → Call
  prune : Call
  start : Bytes → Call
  -- `mkdir -p` in a container by a user
  make_dir : Bytes → Bytes → Bytes → Call
  set_quota : Bytes → CpuQuota → Call
  -- `/bin/sh -s` in a container by a user, with `BINARY_DIR`
  exec_create : Bytes → Bytes → Bytes → Call
  exec_attach : Bytes → Call
  copy_script : Bytes → Call
  close_write : Call

pub record Outside : Type 0 where
  pub environ : List Bytes
  -- `name.ParseReference`, and the registry of the reference
  pub registry : Bytes → Result Bytes
  -- `fs.Stat` finds the file.
  pub is_there : Bytes → Bool
  pub load : Bytes → Result Config
  pub unmarshal : Bytes → Result Config
  pub resolve : Bytes → Bytes
  pub decode : AuthEntry → Result (Bytes × Bytes)
  pub multiarch : Bytes
  pub set_oom_score : List Call → Option Error
  pub effect : List Call → Effect → Option Error
  pub pull : List Call → Option Error
  pub remount_sys : List Call → Option Error
  pub unmount_gpu_drivers : List Call → Option Error
  pub session : List Call → ImageSession
  pub gpus : List Call → Result (List Bytes × List MountPoint)
  pub create : List Call → DockerConfig → Result Bytes
  pub prune : List Call → Option Error
  pub start : List Call → Option Error
  pub make_dir : List Call → Option Error
  pub cpu_quota : List Call → Result CpuQuota
  pub exec_create : List Call → Result Bytes
  pub exec_attach : List Call → Option Error
  pub copy_script : List Call → Option Error
  pub close_write : List Call → Option Error

-- The devices, mounts and environment of the inner container.
pub record Inner : Type 0 where
  pub devices : List DeviceMapping
  pub mounts : List Mount
  pub envs : List Bytes

abbrev pub no_auth : AuthConfig
no_auth = record { username = []; password = []; identity_token = [] }

-- `strconv.ParseInt(s, 10, 32)`
narrow : Result ℤ → Result ℤ
narrow (ok (pos n)) =
    if ltb n (2 ^ 31) then ok (pos n) else err (failure (codes "value out of range"))
narrow (ok (negsuc n)) =
    if ltb n (2 ^ 31) then ok (negsuc n) else err (failure (codes "value out of range"))
narrow (err e) = err e

unfoldable pub parse_int32 : Bytes → Result ℤ
unfolding narrow
parse_int32 s = context (codes "strconv.ParseInt: parsing " ++ quote s) (narrow (atoi s))

abbrev pub inner_container_name : Bytes
inner_container_name = codes "workspace_cvm"

-- The devices of GPUs, under their own paths.
pub gpu_devices : List Bytes → List DeviceMapping
gpu_devices [] = []
gpu_devices (path ∷ paths) =
    record { path_on_host = path; path_in_container = path; cgroup_permissions = codes "rwm" }
    ∷ gpu_devices paths

module _ (o : Outside) (f : Flags) where
  -- The credentials for the registry of the image: from the secret, if any, and then from the config file,
  -- if it is there, which replaces them also where it has none.
  pub from_secret : Bytes → Result AuthConfig
  from_secret registry =
      if same f.image_pull_secret []
      then ok no_auth
      else context (codes "parse auth config")
          (auth_config_from_string o.unmarshal o.resolve o.decode f.image_pull_secret registry)

  file_auth : Result AuthConfig → Result AuthConfig
  file_auth (ok auth) = ok auth
  file_auth (err e) =
      if is_cause e not_exist then ok no_auth else err (wrap (codes "auth config from file") e)

  from_file : Bytes → AuthConfig → Result AuthConfig
  unfolding file_auth
  from_file registry auth =
      if o.is_there f.docker_config
      then file_auth (auth_config_from_path o.load o.resolve o.decode f.docker_config registry)
      else ok auth

  registry_auth : Bytes → Result AuthConfig → Result AuthConfig
  registry_auth registry (ok auth) = from_file registry auth
  registry_auth registry (err e) = err e

  pub docker_auth : Result Bytes → Result AuthConfig
  unfolding from_secret from_file registry_auth
  docker_auth (ok registry) = registry_auth registry (from_secret registry)
  docker_auth (err e) = err (wrap (codes "parse ref") e)

  pub envs_of : List Bytes
  envs_of =
      default_container_envs o.environ f.agent_token
      ++ filter_elements o.environ (split f.inner_envs b',')

  all_mounts : Result (List Mount) → Result (List Mount)
  all_mounts (ok extra) = ok (default_mounts ++ extra)
  all_mounts (err e) = err (wrap (codes "read mounts") e)

  pub requested_mounts : Result (List Mount)
  unfolding all_mounts
  requested_mounts = all_mounts (parse_mounts f.container_mounts)

  -- Behind the pull: drivers in /proc are unmounted if GPUs are added.
  pub release_drivers : Step Call Nil
  release_drivers =
      if not f.add_gpu
      then return nil
      else if same f.host_usr_lib_dir []
      then given (
          err (
            failure (
              codes "when using GPUs, "
              ++ quote (codes "CODER_USR_LIB_DIR")
              ++ codes " must be specified")))
      else call (codes "unmount /proc GPU drivers") unmount_gpu_drivers o.unmount_gpu_drivers

  -- The directory of libraries in the inner container.
  pub inner_dir : ImageMetadata → Bytes
  inner_dir meta =
      if same f.inner_usr_lib_dir [] then usr_lib_dir o.multiarch meta else f.inner_usr_lib_dir

  pub with_gpus : ImageMetadata → Inner → List Bytes × List MountPoint → Inner
  unfolding inner_dir gpu_devices
  with_gpus meta inner (devs, binds) = record {
    devices = inner.devices ++ gpu_devices devs;
    mounts = add_gpu_mounts f.host_usr_lib_dir (inner_dir meta) binds inner.mounts;
    envs = inner.envs ++ gpu_envs o.environ;
  }

  pub add_gpus : ImageMetadata → Inner → Step Call Inner
  unfolding with_gpus
  add_gpus meta inner = if not f.add_gpu then return inner else do
    found ← ask (codes "find gpus") (find_gpus f.host_usr_lib_dir) o.gpus
    return (with_gpus meta inner found)

  pub config_of : ImageMetadata → Inner → ContainerConfig
  config_of meta inner = record {
    mounts = inner.mounts;
    devices = inner.devices;
    envs = inner.envs;
    name = inner_container_name;
    image = f.inner_image;
    working_dir = f.inner_work_dir;
    hostname = f.inner_hostname;
    has_init = meta.has_init;
    cpus = f.cpus;
    memory_limit = f.memory;
  }

  pub create_inner : ImageMetadata → Inner → Step Call Bytes
  unfolding config_of
  create_inner meta inner =
      let conf = config_of meta inner in
      ask (codes "create container") (create (docker_config conf) conf.name)
        (λ t. create_container (λ config name. o.create t config) conf)

  -- The CPU quota of the outer container for the inner one. No error of this is fatal.
  pub copy_quota : Bytes → Step Call Nil
  copy_quota id t = elim (o.cpu_quota t) [
    | err e ↦ (ok nil, t)
    | ok quota ↦ (ok nil, t ++ set_quota id quota ∷ [])
  ]

  pub boot_dir : ImageMetadata → Bytes
  boot_dir meta = join_path (meta.home_dir ∷ codes ".coder" ∷ [])

  pub run_bootstrap : Bytes → ImageMetadata → Bytes → Step Call Bytes
  unfolding boot_dir
  run_bootstrap id meta [] = return []
  run_bootstrap id meta (c ∷ script) = do
    exec ← ask (codes "create exec") (exec_create id meta.uid (boot_dir meta)) o.exec_create
    attached ← call (codes "attach exec") (exec_attach exec) o.exec_attach
    copied ← call (codes "copy stdin") (copy_script (c ∷ script)) o.copy_script
    closed ← call (codes "close write") close_write o.close_write
    return exec

  -- From the creation of the inner container on.
  pub start_inner : ImageMetadata → Inner → Step Call Bytes
  unfolding create_inner copy_quota run_bootstrap
  start_inner meta inner = do
    id ← create_inner meta inner
    pruned ← call (codes "prune images") prune o.prune
    started ← call (codes "start container") (start id) o.start
    made ← call (codes "make bootstrap dir") (make_dir id meta.uid (boot_dir meta)) o.make_dir
    limited ← copy_quota id
    run_bootstrap id meta f.bootstrap_script

  -- From the metadata of the image on.
  pub with_image : List DeviceMapping → List Mount → Step Call Bytes
  unfolding start_inner add_gpus envs_of
  with_image devices mounts = do
    meta ←
        ask (codes "get image metadata") (inspect_image f.inner_image f.inner_username)
          (λ t. (get_image_metadata (o.session t) f.inner_image f.inner_username).1)
    uid ← given (context (codes "parse image uid") (parse_int32 meta.uid))
    gid ← given (context (codes "parse image gid") (parse_int32 meta.gid))
    shifted ←
        embed shift (λ t. shift_mounts (λ es e. o.effect (t ++ map shift es) e) uid gid mounts)
    inner ← add_gpus meta (record { devices = devices; mounts = mounts; envs = envs_of })
    start_inner meta inner

  unfoldable pub run_docker_cvm : Step Call Bytes
  unfolding with_image docker_auth requested_mounts release_drivers
  run_docker_cvm = do
    scored ← call (codes "set oom score") set_oom_score o.set_oom_score
    auth ← given (docker_auth (o.registry f.inner_image))
    mounts ← given requested_mounts
    devices ←
        embed prepare
          (λ t. prepare_devices (λ es e. o.effect (t ++ map prepare es) e) f.add_tun f.add_fuse)
    pulled ← call (codes "pull image") (pull f.inner_image auth) o.pull
    mounted ← call (codes "remount /sys") remount_sys o.remount_sys
    released ← release_drivers
    with_image devices mounts
