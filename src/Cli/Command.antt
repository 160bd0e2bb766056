-- ===== src/Cli/Command.antt =====
-- cli/docker.go: the command of `dockerCmd` around `runDockerCVM`, and the goroutines that it starts.
--
-- Calls answer in view of the calls before, as in Cli.Cvm. What a goroutine reads from a channel or asks
-- the Docker client is a value. A bridge that is no IPv4 network is a panic of the parser.
pub mod Retry
pub mod Signal
pub mod StartupLog
pub mod Sample
mod Tests
use envbox.Prelude.{
  ℕ, Bool, true, false, ◌&&◌, not, List, [], ◌∷◌, ◌++◌, Option, none, some, Bytes, codes, same,
  quote, decimal, Error, failure, wrap, is_cause, Result, ok, err, context, if◌then◌else◌,
}
use envbox.Prelude.Steps.{Nil, nil, Step, ◌>>=◌, return, given, call, ask, embed}
use envbox.Dockerutil.Image.{is_no_space_err}
use envbox.Dockerutil.Network.{Ipv4, IpNet, bridge_ip_from_cidr}
use envbox.Background.Process.{err_user_killed}
use envbox.Cli.Docker.{dockerd_args}
use envbox.Cli.Cvm

-- The flags that the command itself reads.
pub record Options : Type 0 where
  pub no_startup_logs : Bool
  pub coder_url : Bytes
  pub dockerd_bridge_cidr : Bytes
  pub ethlink : Bytes
  pub extra_certs_path : Bytes
  pub cvm : Cvm.Flags

pub data Act : Type 0 where
  -- a command and its arguments
  start_dockerd : Bytes × List Bytes → Act
  wait_for_manager : Act
  wait_for_daemon : Act
  write_certs : Bytes → Bytes → Act
  -- `runDockerCVM`, with its calls
  run_cvm : List Cvm.Call → Act
  restart_dockerd : Bytes × List Bytes → Act

pub record Host : Type 0 where
  -- wrap_dockerd.sh
  pub script : Bytes
  -- `xhttp.Client`
  pub http_client : Option Error
  pub parse_url : Bytes → Option Error
  -- `netlink.LinkByName`, and the MTU of the link
  pub link : Bytes → Result ℕ
  pub parse_cidr : Bytes → IpNet
  pub start : List Act → Option Error
  pub wait_for_manager : List Act → Option Error
  -- `dockerutil.ExtractClient`
  pub client : Option Error
  pub wait_for_daemon : List Act → Option Error
  -- `name.ParseReference`, and the registry of the reference
  pub registry : Bytes → Result Bytes
  pub write_certs : List Act → Option Error
  pub outside : List Act → Cvm.Outside
  pub restart : List Act → Option Error

abbrev pub default_bridge_cidr : Bytes
default_bridge_cidr = codes "172.19.0.1/30"

-- `%s` of an address
format_ip : Ipv4 → Bytes
format_ip ip =
    decimal ip.b0
    ++ codes "."
    ++ decimal ip.b1
    ++ codes "."
    ++ decimal ip.b2
    ++ codes "."
    ++ decimal ip.b3

-- `wrapDockerdCmd`, with the script that is embedded.
pub wrap_dockerd_cmd : Bytes → List Bytes → Bytes × List Bytes
wrap_dockerd_cmd script dargs = (
  codes "unshare",
  codes "--cgroup"
      ∷ codes "/bin/sh"
      ∷ codes "-c"
      ∷ (codes "envbox_max_attempts=" ++ decimal 100 ++ codes "\n" ++ script)
      ∷ codes "dockerd"
      ∷ dargs,
)

sysbox_args : Bool → List Bytes
sysbox_args disable = if disable then codes "--disable-idmapped-mount" ∷ [] else []

checked : Option Error → Bytes → Result Nil
checked none what = ok nil
checked (some e) what = err (wrap what e)

args_of_mtu : Bytes → ℕ → Bool → Result ℕ → Result (List Bytes)
args_of_mtu ip prefix_len is_no_space (ok mtu) = ok (dockerd_args mtu ip prefix_len is_no_space)
args_of_mtu ip prefix_len is_no_space (err e) = err (wrap (codes "custom mtu") e)

wrapped : Bytes → Result (List Bytes) → Result (Bytes × List Bytes)
unfolding wrap_dockerd_cmd
wrapped script (ok args) = ok (wrap_dockerd_cmd script args)
wrapped script (err e) = err e

netlink_mtu : (Bytes → Result ℕ) → Bytes → Result ℕ
netlink_mtu link name = context (codes "get " ++ name) (link name)

module _ (h : Host) (f : Options) where
  cidr : Bytes
  cidr = if same f.dockerd_bridge_cidr [] then default_bridge_cidr else f.dockerd_bridge_cidr

  -- `dockerdArgs`, and the command that is made of them
  pub dockerd_args_for : Bool → Result (Bytes × List Bytes)
  unfolding format_ip wrapped netlink_mtu args_of_mtu cidr
  dockerd_args_for is_no_space =
      let (ip, prefix_len) = bridge_ip_from_cidr (h.parse_cidr cidr) in
      wrapped h.script
        (args_of_mtu (format_ip ip) prefix_len is_no_space (netlink_mtu h.link f.ethlink))

  -- The client of the build log: only a URL that is no URL is an error.
  log_client : Result Nil
  log_client =
      if not f.no_startup_logs && not (same f.cvm.agent_token []) && not (same f.coder_url [])
      then checked (h.parse_url f.coder_url) (codes "parse coder URL " ++ quote f.coder_url)
      else ok nil

  pub registry_certs : Step Act Nil
  registry_certs = if same f.extra_certs_path [] then return nil else do
    registry ← given (context (codes "invalid image") (h.registry f.cvm.inner_image))
    call (codes "write certs for registry") (write_certs registry f.extra_certs_path) h.write_certs

  pub run_inner : Step Act Bytes
  run_inner t = let r = Cvm.run_docker_cvm (h.outside t) f.cvm [] in (r.0, t ++ run_cvm r.1 ∷ [])

  -- What a second run answers is assigned to a variable of the inner block.
  run_unread : Step Act Nil
  unfolding run_inner
  run_unread t = (ok nil, (run_inner t).1)

  -- Behind a first run that failed for want of space.
  pub reattempt : Error → Step Act Bytes
  unfolding run_unread
  reattempt e = do
    args ← given (context (codes "dockerd args for restart") (dockerd_args_for true))
    restarted ← call (codes "restart dockerd") (restart_dockerd args) h.restart
    ran ← run_unread
    given (err (wrap (codes "run") e))

  pub behind_first : Result Bytes × List Act → Result Bytes × List Act
  unfolding reattempt
  behind_first (ok id, t) = (ok id, t)
  behind_first (err e, t) =
      if is_no_space_err e then reattempt e t else (err (wrap (codes "run") e), t)

  pub run_cvm_twice : Step Act Bytes
  unfolding run_inner behind_first
  run_cvm_twice t = behind_first (run_inner t)

  -- The command, with the id of the bootstrap.
  pub run_command : Step Act Bytes
  unfolding log_client registry_certs run_cvm_twice checked
  run_command = do
    client ← given (checked h.http_client (codes "http client"))
    log ← given log_client
    args ← given (context (codes "dockerd args") (dockerd_args_for false))
    started ← call (codes "start dockerd") (start_dockerd args) h.start
    managed ← call (codes "wait for sysbox-mgr") wait_for_manager h.wait_for_manager
    docker ← given (checked h.client (codes "new docker client"))
    waited ← call (codes "wait for dockerd") wait_for_daemon h.wait_for_daemon
    copied ← registry_certs
    run_cvm_twice

  -- The goroutine that waits for dockerd: the error with which it ends the program, if any. It is given how
  -- dockerd ended, what `Restart` answers and how dockerd ended behind that.
  pub watch_end : Option Error → Option (Bytes × Error)
  watch_end none = none
  watch_end (some e) =
      if is_cause e err_user_killed.cause then none else some (codes "dockerd exited", e)

  pub watch_restart :
      Result (Bytes × List Bytes) → Option Error → Option Error → Option (Bytes × Error)
  unfolding watch_end
  watch_restart (err e) restarted second =
      some (codes "dockerd exited, failed getting args for restart", e)
  watch_restart (ok args) (some e) second = some (codes "restart dockerd", e)
  watch_restart (ok args) none second = watch_end second

  pub watch_dockerd : Option Error → Option Error → Option Error → Option (Bytes × Error)
  unfolding watch_restart
  watch_dockerd none restarted second = none
  watch_dockerd (some e) restarted second =
      if is_no_space_err e
      then watch_restart (dockerd_args_for true) restarted second
      else watch_end (some e)

-- The goroutine for a dockerd that was restarted ends the program however that ends.
pub watch_restarted : Option Error → Bytes × Option Error
watch_restarted e = (codes "restarted dockerd exited", e)

-- How the goroutine for a signal ends.
pub data Shutdown : Type 0 where
  skipped : Shutdown
  kill_failed : Error → Shutdown
  wait_failed : Error → Shutdown
  exited : Shutdown

-- An error of `GetExecPID` is logged, and the id is 0 then.
pid_of : Result ℕ → ℕ
pid_of (ok pid) = pid
pid_of (err e) = 0

kill_command : ℕ → List Bytes
kill_command pid = codes "kill" ∷ codes "-TERM" ∷ decimal pid ∷ []

-- The goroutine for a signal: the command that it runs, and how it ends. It is given the id of the
-- bootstrap, what `GetExecPID` answers, the error of the context of 90 seconds if it is done behind that,
-- where `exec.CommandContext` runs nothing and returns the error, and what the command and `WaitForExit`
-- answer.
pub shut_down :
    Bytes
    → Result ℕ
    → Option Error
    → (List Bytes → Option Error)
    → Option Error
    → Option (List Bytes) × Shutdown
unfolding pid_of kill_command
shut_down [] pid ctx_done run waited = (none, skipped)
shut_down (c ∷ id) pid (some e) run waited = (none, kill_failed e)
shut_down (c ∷ id) pid none run waited =
    let command = kill_command (pid_of pid) in
    (
      some command,
      elim (run command) [
        | some e ↦ kill_failed e
        | none ↦ elim waited [ some e ↦ wait_failed e | none ↦ exited ]
      ],
    )
