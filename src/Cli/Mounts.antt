-- ===== src/Cli/Mounts.antt =====
-- cli/docker.go: the mounts that the user asks for, the default ones and those private to envbox.
pub mod Parse
pub mod Dirs
mod Tests
use envbox.Prelude.{
  ℕ, suc, ℤ, pos, negsuc, ltb, ◌-◌, ◌+◌, Bool, true, false, ◌||◌, List, [], ◌∷◌, ◌++◌, Bytes, codes,
  same, split, Error, failure, Result, ok, err, ◌>>=◌, if◌then◌else◌, quote, split_dir, any, ◌==◌,
}
use envbox.Xunix.Mount.{Mount}

pub malformed : Bytes → Error
malformed whole = failure (codes "malformed mounts value " ++ quote whole)

-- The body of the loop of `parseMounts`: the mount that two or three tokens give.
pub parse_mount : Bytes → List Bytes → Result Mount
parse_mount whole (src ∷ dst ∷ []) =
    ok (record { source = src; mountpoint = dst; read_only = false })
parse_mount whole (src ∷ dst ∷ mode ∷ []) =
    ok (record { source = src; mountpoint = dst; read_only = same mode (codes "ro") })
parse_mount whole _ = err (malformed whole)

pub parse_entries : Bytes → List Bytes → List Mount → Result (List Mount)
unfolding parse_mount
parse_entries whole [] mounts = ok mounts
parse_entries whole (entry ∷ entries) mounts = do
  m ← parse_mount whole (split entry b':')
  parse_entries whole entries (mounts ++ m ∷ [])

unfoldable pub parse_mounts : Bytes → Result (List Mount)
unfolding parse_entries
parse_mounts [] = ok []
parse_mounts (c ∷ s) = parse_entries (c ∷ s) (split (c ∷ s) b',') []

abbrev pub default_mounts : List Mount
default_mounts =
    record {
      source = codes "/var/lib/coder/docker";
      mountpoint = codes "/var/lib/docker";
      read_only = false;
    }
    ∷ record {
      source = codes "/var/lib/coder/containers";
      mountpoint = codes "/var/lib/containers";
      read_only = false;
    }
    ∷ []

abbrev pub envbox_private_mounts : List Bytes
envbox_private_mounts =
    codes "/var/lib/containers"
    ∷ codes "/var/lib/docker"
    ∷ codes "/var/lib/sysbox"
    ∷ codes "/lib/modules"
    ∷ codes "/usr/src"
    ∷ codes "/var/lib/coder"
    ∷ []

unfoldable pub is_private_mount : Mount → Bool
is_private_mount m = any envbox_private_mounts (same m.mountpoint)

unfoldable pub is_home_dir : Bytes → Bool
unfolding split_dir
is_home_dir fpath = same fpath (codes "/root") || same (split_dir fpath) (codes "/home/")

abbrev pub user_namespace_offset : ℕ
user_namespace_offset = 100000

unfoldable pub shifted_id : ℤ → ℤ
shifted_id (pos n) = pos (n + user_namespace_offset)
shifted_id (negsuc n) =
    if ltb n user_namespace_offset
    then pos (user_namespace_offset - suc n)
    else negsuc (n - user_namespace_offset)
