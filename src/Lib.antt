-- ===== src/Lib.antt =====
-- A model of envbox, the program that runs a workspace container inside a container of a
-- Kubernetes pod: it prepares devices, mounts and limits of the outer container, starts a Docker
-- daemon and Sysbox in it, pulls the image of the inner container, creates that container and
-- runs a script in it.
--
-- Parts. The command in cli/docker.go drives all others. It reads mounts and environment
-- variables from its flags (Cli.Mounts, Cli.Envs), finds GPU devices and driver files with
-- xunix/gpu.go (Xunix.Gpu, Xunix.Symlinks), starts dockerd through background/process.go
-- (Background.Process), waits for it, pulls the image and creates the container with dockerutil
-- (Dockerutil.Daemon, Dockerutil.Registry, Dockerutil.Image, Dockerutil.Network,
-- Dockerutil.Container, Dockerutil.Exec), and copies the CPU quota that xunix/sys.go reads
-- (Xunix.Sys) into the new container (Dockerutil.Quota). Logs go through buildlog (Buildlog) and
-- the output of a process through xio/limitwriter.go (Xio.LimitWriter).
--
-- Prelude.Sort says what Go's sort.Slice documents. Prelude holds what the parts share: byte
-- strings and the functions of Go's strings, strconv, path and path/filepath packages that the
-- program uses, errors as values with a text and the sentinel that they wrap, Result for a value
-- or an error, and lemmas on them. Texts are lists of bytes; where Go folds case or trims white
-- space the model does so on ASCII.
--
-- Xio.LimitWriter is xio/limitwriter.go: Write, Flush and their helpers have the names of the Go
-- methods in snake case. The writer below is a function from its state and bytes to the count,
-- error and new state. Ring has the laws of the ring buffer, Refine the relation to the text
-- written so far, Output what Flush writes, Bounds the size of the state.
--
-- Xunix.Symlinks and Xunix.Gpu are xunix/gpu.go. What the file system, the mount table and
-- unmounting answer are functions that the definitions take. A loop over a Go map takes the order
-- of its entries as an argument, so that the theorems hold for any order. Xunix.Sys is
-- xunix/sys.go, Xunix.Mount the type of xunix/mount.go, Xunix.User the parser of xunix/user.go.
-- Xunix.Effect has the calls that change the outer container, with what they answer in view of
-- the calls before them; Xunix.Effect.Makes says which calls a run makes, and Xunix.Device is
-- xunix/device.go in these terms.
--
-- Dockerutil.Image is PullImage and processImagePullEvents of dockerutil/image.go with
-- IsNoSpaceErr of xunix/error.go, on a type World of everything outside,
-- Dockerutil.Image.Progress is DefaultLogImagePullFn with the clock as an argument, and
-- Dockerutil.Metadata the rest of dockerutil/image.go. Dockerutil.Daemon is dockerutil/daemon.go,
-- with the clock as functions of the number of the tick. Dockerutil.Network is
-- dockerutil/network.go behind the parser of the text, in 32-bit arithmetic. Dockerutil.Container
-- and Dockerutil.Quota are dockerutil/container.go, Dockerutil.Exec is dockerutil/exec.go on top
-- of Xio.LimitWriter, Dockerutil.Registry is dockerutil/registry.go, and Dockerutil.Client is the
-- choice of credentials in dockerutil/client.go.
--
-- Background.Process is isProcExited, kill and scanIntoLog of background/process.go, and
-- Background.Lifecycle the lives of a process from New over Start and Restart, with the steps of
-- its goroutines in any order. Buildlog.Cut is cutString of buildlog/coder.go, Buildlog.Coder the
-- rest of that file, with the two clients and what the API answers to their calls, Buildlog.Json
-- is buildlog/json.go, and Buildlog.Multi the multiLogger and the NopLogger of
-- buildlog/logger.go. Cli.Command.StartupLog puts them together as cli/docker.go does. Sysboxutil
-- is sysboxutil/manager.go, and Xhttp is xhttp/client.go, with certificate pools as a type.
-- Cli.Mounts and Cli.Envs are the functions of cli/docker.go for mounts and environment
-- variables, Cli.Docker the parts of runDockerCVM that prepare devices and mounts, and
-- dockerdArgs, and Cli.Cvm the whole of runDockerCVM over these and the other components, as a
-- run of calls (Prelude.Steps) whose answers depend on the calls before. Cli.Gives says what a
-- run gives where it succeeds. Cli.Command is the command of dockerCmd around it, with the
-- goroutines that watch dockerd and wait for a signal. Cli.Cliflag is cli/cliflag/cliflag.go.
--
-- Fuel. A Go loop with no bound takes fuel and returns none when it runs out. The overwriting
-- loop of the limit writer has one round for each byte and one more, which is shown to be enough.
-- For chains of symbolic links any fuel from the length of the chain on is enough; the loop that
-- has no end is a theorem too. cutString needs a round for each byte and one more. The loops that
-- wait for a daemon or for the end of a process make as many rounds as the world outside needs,
-- so that their theorems name the number of rounds.
--
-- Integers. An int is 64 bits wide where the program parses it (Prelude.Numbers); sizes and
-- counters of the limit writer are natural numbers, since they are lengths of slices. The bytes
-- of an address are numbers with the wrap-around of uint32 written out.
--
-- Not modelled. The registration of flags, the client of the Docker daemon, the sink of slog
-- (slogkubeterminate), the mutex of xio/syncwriter.go, the program entry, and all test helpers
-- and fakes: they are calls of libraries or hold no logic. xunix/exec.go is a copy of
-- k8s.io/utils/exec. Third-party code and the operating system stand as arguments.
pub mod Prelude
pub mod Sysboxutil
pub mod Xhttp
pub mod Xio
pub mod Xunix
pub mod Dockerutil
pub mod Background
pub mod Buildlog
pub mod Cli
