-- ===== src/Dockerutil/Container.antt =====
-- dockerutil/container.go: the inner container's binds and configuration, and its bootstrap script.
--
-- Of the configuration of Docker's API the model has the fields that the code sets. `World` is the state
-- of everything outside, and `wait` what `r.Wait(ctx)` answers when it is called for the `n`-th time.
pub mod Bootstrap
mod Tests
use envbox.Prelude.{
  ℕ, zero, suc, ◌*◌, ◌%◌, ◌^◌, Bool, true, false, List, [], ◌∷◌, ◌++◌, Option, none, some, Bytes,
  codes, same, Error, wrap, Result, ok, err, if◌then◌else◌, context,
}
use envbox.Xunix.Mount.{Mount}

-- One round of the loop of `generateBindMounts`: `src:dst` or `src:dst:ro`.
unfoldable pub bind_mount : Mount → Bytes
bind_mount m =
    let bind = m.source ++ b':' ∷ m.mountpoint in if m.read_only then bind ++ codes ":ro" else bind

unfoldable pub generate_bind_mounts : List Mount → List Bytes
unfolding bind_mount
generate_bind_mounts [] = []
generate_bind_mounts (m ∷ ms) = bind_mount m ∷ generate_bind_mounts ms

-- `container.DeviceMapping` of the Docker API
pub record DeviceMapping : Type 0 where
  pub path_on_host : Bytes
  pub path_in_container : Bytes
  pub cgroup_permissions : Bytes

pub record ContainerConfig : Type 0 where
  pub mounts : List Mount
  pub devices : List DeviceMapping
  pub envs : List Bytes
  pub name : Bytes
  pub image : Bytes
  pub working_dir : Bytes
  pub hostname : Bytes
  pub has_init : Bool
  pub cpus : ℕ
  pub memory_limit : ℕ

-- `container.Config` and `container.HostConfig`; the quota is the bits of an int64.
pub record DockerConfig : Type 0 where
  pub runtime : Bytes
  pub auto_remove : Bool
  pub devices : List DeviceMapping
  pub cpu_period : ℕ
  pub cpu_quota : ℕ
  pub memory : ℕ
  pub extra_hosts : List Bytes
  pub binds : List Bytes
  pub image : Bytes
  pub entrypoint : List Bytes
  pub env : List Bytes
  pub hostname : Bytes
  pub working_dir : Bytes
  pub tty : Bool
  pub user : Bytes

pub docker_config : ContainerConfig → DockerConfig
docker_config conf = record {
  runtime = codes "sysbox-runc";
  auto_remove = true;
  devices = conf.devices;
  cpu_period = 100000;
  cpu_quota = conf.cpus * 100000 % 2 ^ 64;
  memory = conf.memory_limit;
  extra_hosts = codes "host.docker.internal:host-gateway" ∷ [];
  binds = generate_bind_mounts conf.mounts;
  image = conf.image;
  entrypoint =
      if conf.has_init then codes "/sbin/init" ∷ [] else codes "sleep" ∷ codes "infinity" ∷ [];
  env = conf.envs;
  hostname = if same conf.hostname [] then conf.name else conf.hostname;
  working_dir = conf.working_dir;
  tty = false;
  user = codes "root";
}

-- `CreateContainer`, where the client creates a container of a configuration and a name.
unfoldable pub create_container :
    (DockerConfig → Bytes → Result Bytes) → ContainerConfig → Result Bytes
unfolding docker_config
create_container create conf =
    context (codes "create container") (create (docker_config conf) conf.name)

-- The error of the last round.
timed_out : Option Error → Option Error
timed_out none = none
timed_out (some e) = some (wrap (codes "timed out boostrapping container") e)

module _ {World : Type 0} (wait : ℕ → Bool) (exec : World → Option Error × World) where
  -- The loop: `left` rounds are left after `n`, and `last` is the error of the round before, if any.
  -- `ExecContainer` returns no output with an error.
  pub bootstrap_loop : ℕ → ℕ → Option Error → World → Option Error × World
  bootstrap_loop zero n last w = (last, w)
  bootstrap_loop (suc left) n last w = elim (wait n) [
    | false ↦ (last, w)
    | true ↦ elim (exec w).0 [
      | none ↦ (none, (exec w).1)
      | some e ↦
          bootstrap_loop left (suc n) (some (wrap (codes "boostrap container ()") e)) (exec w).1
    ]
  ]

  pub bootstrap_container : Bytes → World → Option Error × World
  unfolding bootstrap_loop timed_out
  bootstrap_container [] w = (none, w)
  bootstrap_container (c ∷ script) w = let r = bootstrap_loop 10 0 none w in (timed_out r.0, r.1)
