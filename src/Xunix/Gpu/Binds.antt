-- ===== src/Xunix/Gpu/Binds.antt =====
-- The devices and the binds that `GPUs` of xunix/gpu.go returns.
use envbox.Prelude.{
  ◌≡◌, Bool, true, false, not, ◌&&◌, List, [], ◌∷◌, ◌++◌, Bytes, codes, has_prefix, member,
  Distinct, Result, ok, err, map, select,
}
use envbox.Xunix.Gpu.{MountPoint, gpu_mount, paths}

-- A GPU mount in /dev, and one elsewhere.
abbrev pub is_device : MountPoint → Bool
is_device m = gpu_mount m.path && has_prefix m.path (codes "/dev/")

abbrev pub is_bind : MountPoint → Bool
is_bind m = gpu_mount m.path && not (has_prefix m.path (codes "/dev/"))

-- The links of a mount to bind, if its directory could be read: read-only mounts.
abbrev pub links_of : Result (List Bytes) → List MountPoint
links_of (ok links) = map (λ path. record { path = path; opts = codes "ro" ∷ [] }) links
links_of (err e) = []

-- Each mount, and then its links.
abbrev pub with_links : (Bytes → Result (List Bytes)) → List MountPoint → List MountPoint
with_links same_dir [] = []
with_links same_dir (m ∷ ms) = m ∷ (links_of (same_dir m.path) ++ with_links same_dir ms)

-- The binds of the mounts.
abbrev pub binds_of : (Bytes → Result (List Bytes)) → List MountPoint → List MountPoint
binds_of same_dir mounts = with_links same_dir (select is_bind mounts)

-- The binds behind the old ones: their paths stand once, and are no paths of the old ones.
abbrev pub Adds : List MountPoint → List MountPoint → Type 0
Adds old new =
    Distinct (paths new)
    × ((n : Bytes) → member n (paths new) ≡ true → member n (paths old) ≡ false)
