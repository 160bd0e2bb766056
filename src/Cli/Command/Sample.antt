-- ===== src/Cli/Command/Sample.antt =====
-- Flags and a host of the command at which tests run.
use envbox.Prelude.{false, [], none, codes, ok}
use envbox.Cli.Cvm.{Outside}
use envbox.Cli.Cvm.Sample.{flags}
use envbox.Cli.Command.{Options, Host}

abbrev pub options : Options
options = record {
  no_startup_logs = false;
  coder_url = [];
  dockerd_bridge_cidr = [];
  ethlink = codes "eth0";
  extra_certs_path = [];
  cvm = flags;
}

abbrev pub host : Outside → Host
host o = record {
  script = codes "exec dockerd";
  http_client = none;
  parse_url = λ url. none;
  link = λ name. ok 1500;
  parse_cidr = λ cidr. record { ip = record { b0 = 172; b1 = 19; b2 = 0; b3 = 0 }; mask = 30 };
  start = λ acts. none;
  wait_for_manager = λ acts. none;
  client = none;
  wait_for_daemon = λ acts. none;
  registry = λ image. ok (codes "index.docker.io");
  write_certs = λ acts. none;
  outside = λ acts. o;
  restart = λ acts. none;
}
