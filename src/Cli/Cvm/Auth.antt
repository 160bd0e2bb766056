-- ===== src/Cli/Cvm/Auth.antt =====
-- With which credentials `runDockerCVM` of cli/docker.go pulls the image.
