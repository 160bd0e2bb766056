-- ===== src/Dockerutil.antt =====
-- dockerutil: what envbox asks of the Docker daemon.
pub mod Client
pub mod Container
pub mod Daemon
pub mod Exec
pub mod Image
pub mod Metadata
pub mod Network
pub mod Quota
pub mod Registry
