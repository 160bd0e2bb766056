-- ===== src/Dockerutil/Container/Tests.antt =====
-- Runs of the functions of dockerutil/container.go, and the theorem at a concrete container.
use envbox.Prelude.{
  ℕ, ◌+◌, ◌≡◌, refl, true, false, [], Option, none, some, codes, Error, failure, ok, ltb,
  if◌then◌else◌, cons-ne-nil, same,
}
use envbox.Dockerutil.Container.{
  ContainerConfig, create_container, docker_config, bootstrap_container,
}
use envbox.Dockerutil.Container.Bootstrap.{Ended, bootstrap_container-Ended}

abbrev config : ContainerConfig
config = record {
  mounts = [];
  devices = [];
  envs = [];
  name = codes "workspace_cvm";
  image = codes "ubuntu";
  working_dir = [];
  hostname = [];
  has_init = false;
  cpus = 2;
  memory_limit = 0;
}

hostname_run : create_container (λ c name. ok c.hostname) config ≡ ok (codes "workspace_cvm")
unfolding create_container same
hostname_run = refl

quota_run : (docker_config config).cpu_quota ≡ 200000
unfolding docker_config
quota_run = refl

-- A script that fails at its first three runs.
abbrev flaky : ℕ → Option Error × ℕ
flaky runs = (if ltb runs 3 then some (failure (codes "no shell")) else none, runs + 1)

bootstrap_run : bootstrap_container (λ n. true) flaky (codes "true") 0 ≡ (none, 4)
unfolding bootstrap_container
bootstrap_run = refl

bootstrap_container-Ended_example :
    Ended (λ n. true) flaky 0 (bootstrap_container (λ n. true) flaky (codes "true") 0)
bootstrap_container-Ended_example =
    bootstrap_container-Ended (λ n. true) flaky (codes "true") 0 (cons-ne-nil _ _)
