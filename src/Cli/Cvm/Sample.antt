-- ===== src/Cli/Cvm/Sample.antt =====
-- Answers from outside and flags for tests of cli/docker.go: an image whose user is root, a TUN device and
-- a bootstrap script.
use envbox.Prelude.{
  true, false, List, [], ◌∷◌, none, Bytes, codes, same, failure, Result, ok, err, if◌then◌else◌,
}
use envbox.Dockerutil.Client.{Config}
use envbox.Dockerutil.Metadata.{ImageSession}
use envbox.Cli.Cvm.{Flags, Outside}

abbrev pub answers : List Bytes → Result Bytes
answers (command ∷ _) =
    if same command (codes "getent")
    then ok (codes "root:x:0:0::/root:/bin/sh")
    else err (failure (codes "exit code 1"))
answers [] = err (failure (codes "no command"))

abbrev pub session : ImageSession
session = record {
  create = λ img. ok (codes "c1");
  start = λ id. ok tt;
  inspect = λ id. ok (record { id = id; driver = codes "overlay2"; merged_dir = codes "/merged" });
  exec = λ id command. answers command;
}

abbrev pub empty_config : Config
empty_config = record { credentials = λ host. ok ([], []); entries = [] }

-- A secret for the registry that has credentials.
abbrev pub secret_config : Config
secret_config = record { credentials = λ host. ok (codes "bot", codes "token"); entries = [] }

abbrev pub outside : Outside
outside = record {
  environ = codes "PATH=/bin" ∷ [];
  registry = λ image. ok (codes "index.docker.io");
  is_there = λ path. true;
  load = λ path. ok empty_config;
  unmarshal = λ raw. ok secret_config;
  resolve = λ reg. reg;
  decode = λ e. err (failure (codes "invalid auth"));
  multiarch = codes "/usr/lib/x86_64-linux-gnu";
  set_oom_score = λ t. none;
  effect = λ t e. none;
  pull = λ t. none;
  remount_sys = λ t. none;
  unmount_gpu_drivers = λ t. none;
  session = λ t. session;
  gpus = λ t. ok ([], []);
  create = λ t config. ok (codes "c2");
  prune = λ t. none;
  start = λ t. none;
  make_dir = λ t. none;
  cpu_quota = λ t. err (failure (codes "no quota"));
  exec_create = λ t. ok (codes "e1");
  exec_attach = λ t. none;
  copy_script = λ t. none;
  close_write = λ t. none;
}

abbrev pub flags : Flags
flags = record {
  inner_image = codes "ubuntu";
  inner_username = codes "root";
  agent_token = codes "t";
  inner_envs = [];
  inner_work_dir = [];
  inner_hostname = [];
  image_pull_secret = codes "{}";
  add_tun = true;
  add_fuse = false;
  add_gpu = false;
  bootstrap_script = codes "run";
  container_mounts = codes "/home/coder:/home/coder";
  host_usr_lib_dir = [];
  inner_usr_lib_dir = [];
  docker_config = codes "/root/.docker/config.json";
  cpus = 0;
  memory = 0;
}
