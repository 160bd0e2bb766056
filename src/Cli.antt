-- ===== src/Cli.antt =====
-- cli: the `envbox docker` command.
pub mod Mounts
pub mod Envs
pub mod Docker
pub mod Gives
pub mod Cvm
pub mod Command
pub mod Cliflag
