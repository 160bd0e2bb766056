-- ===== src/Cli/Cvm/Tests.antt =====
-- `runDockerCVM` on an image whose user is root, with a TUN device and a bootstrap script.
use envbox.Prelude.{
  is_cause, wrap, split, trim_space, trim_suffix, atoi, ◌≡◌, refl, [], codes, same, ok,
}
use envbox.Prelude.Steps.{after, call, ask, embed}
use envbox.Xunix.Effect.{perform}
use envbox.Xunix.Device.{create_tun_device}
use envbox.Xunix.User.{parse_passwd}
use envbox.Cli.Docker.{prepare_devices, shift_mounts}
use envbox.Cli.Mounts.{parse_mounts, is_private_mount}
use envbox.Dockerutil.Container.{create_container}
use envbox.Dockerutil.Client.{auth_config_from_string, auth_config_from_path}
use envbox.Dockerutil.Metadata.{get_image_metadata}
use envbox.Cli.Cvm.{parse_int32, run_docker_cvm}
use envbox.Cli.Cvm.Phases.{Ordered}
use envbox.Cli.Cvm.Order.{run_docker_cvm-Ordered}
use envbox.Cli.Cvm.Success.{Completed, run_docker_cvm_lem}
use envbox.Cli.Cvm.Sample.{outside, flags}

run_docker_cvm-Ordered_example : Ordered 0 17 (run_docker_cvm outside flags []).1
run_docker_cvm-Ordered_example = run_docker_cvm-Ordered outside flags

run_succeeds :
    run_docker_cvm outside flags [] ≡ (ok (codes "e1"), (run_docker_cvm outside flags []).1)
unfolding run_docker_cvm after call same auth_config_from_string auth_config_from_path is_cause wrap
    parse_mounts split embed prepare_devices create_tun_device perform ask get_image_metadata
    parse_passwd trim_space trim_suffix parse_int32 atoi shift_mounts is_private_mount
    create_container
run_succeeds = refl

run_docker_cvm_lem_example :
    Completed outside flags (codes "e1") (run_docker_cvm outside flags []).1
run_docker_cvm_lem_example =
    run_docker_cvm_lem outside flags (codes "e1") (run_docker_cvm outside flags []).1 run_succeeds
