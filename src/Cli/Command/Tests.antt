-- ===== src/Cli/Command/Tests.antt =====
-- The command on an image that runs, and on one for which there is no space; a signal.
use envbox.Prelude.{
  ℕ, ◌≡◌, refl, true, [], ◌∷◌, none, some, codes, same, Error, failure, wrap, is_cause, contains,
  to_lower, Result, ok, err, split, trim_space, trim_suffix, atoi,
}
use envbox.Prelude.Steps.{after, call, ask, embed}
use envbox.Xunix.Effect.{perform}
use envbox.Xunix.Device.{create_tun_device}
use envbox.Xunix.User.{parse_passwd}
use envbox.Dockerutil.Image.{is_no_space_err}
use envbox.Dockerutil.Exec.{Inspect, get_exec_pid}
use envbox.Dockerutil.Client.{auth_config_from_string, auth_config_from_path}
use envbox.Dockerutil.Metadata.{get_image_metadata}
use envbox.Dockerutil.Container.{create_container}
use envbox.Cli.Mounts.{parse_mounts, is_private_mount}
use envbox.Cli.Docker.{prepare_devices, shift_mounts}
use envbox.Cli.Cvm.{Outside, run_docker_cvm, parse_int32}
use envbox.Cli.Cvm.Sample.{outside}
use envbox.Cli.Command.Sample.{options, host}
use envbox.Cli.Command.{run_inner, run_cvm_twice, run_command, shut_down, dockerd_args_for}
use envbox.Cli.Command.Retry.{Done, run_command_lem, run_cvm_twice_no_space}
use envbox.Cli.Command.Signal.{shut_down-Signals}

-- Outside there is no space for the image.
abbrev full : Outside
full = record outside { pull = λ t. some (failure (codes "No space left on device")) }

command_succeeds :
    run_command (host outside) options []
    ≡ (ok (codes "e1"), (run_command (host outside) options []).1)
unfolding run_command run_docker_cvm after call same auth_config_from_string auth_config_from_path
    is_cause wrap parse_mounts split embed prepare_devices create_tun_device perform ask
    get_image_metadata parse_passwd trim_space trim_suffix parse_int32 atoi shift_mounts
    is_private_mount create_container dockerd_args_for
command_succeeds = refl

run_command_lem_example :
    Done (host outside) options (codes "e1") (run_command (host outside) options []).1
run_command_lem_example =
    run_command_lem (host outside) options (codes "e1") (run_command (host outside) options []).1
      command_succeeds

abbrev no_space : Error
no_space = failure (codes "pull image: No space left on device")

run_full : (run_inner (host full) options []).0 ≡ err no_space
unfolding run_inner run_docker_cvm after call same auth_config_from_string auth_config_from_path
    is_cause wrap parse_mounts split embed prepare_devices create_tun_device perform
run_full = refl

no_space_is_full : is_no_space_err no_space ≡ true
unfolding is_no_space_err contains to_lower
no_space_is_full = refl

run_cvm_twice_no_space_example : (x : Error) × ((run_cvm_twice (host full) options []).0 ≡ err x)
run_cvm_twice_no_space_example =
    run_cvm_twice_no_space (host full) options [] no_space run_full no_space_is_full

abbrev gone : ℕ → Result Inspect
gone k = err (failure (codes "no such exec"))

not_found :
    get_exec_pid (λ k. true) gone (failure (codes "context canceled")) 1 0
    ≡ some (err (wrap (codes "exec inspect") (failure (codes "no such exec"))))
unfolding get_exec_pid
not_found = refl

shut_down-Signals_example :
    (shut_down
      (codes "e1")
      (err (wrap (codes "exec inspect") (failure (codes "no such exec"))))
      none
      (λ c. none)
      none).0
    ≡ some (codes "kill" ∷ codes "-TERM" ∷ codes "0" ∷ [])
shut_down-Signals_example =
    shut_down-Signals (λ k. true) gone (failure (codes "context canceled")) 1 0
      (err (wrap (codes "exec inspect") (failure (codes "no such exec")))) b'e' (codes "1") none
      (λ c. none) none not_found
