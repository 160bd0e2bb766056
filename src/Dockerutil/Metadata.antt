-- ===== src/Dockerutil/Metadata.antt =====
-- dockerutil/image.go: `GetImageMetadata`, `GetOSReleaseID` and `UsrLibDir`.
--
-- What the Docker client answers is a value: for the container that is created, for its start and its
-- inspection, and for each command in it. A run comes with the containers that are removed.
mod Release
mod Tests
use mathlib.Core.List.{reverse}
use envbox.Prelude.{
  Bool, true, false, ◌&&◌, not, List, [], ◌∷◌, ◌++◌, Bytes, codes, same, split, has_prefix,
  trim_prefix, ◌==◌, if◌then◌else◌, Error, failure, Result, ok, err, ◌>>=◌, context,
}
use envbox.Xunix.User.{User, parse_passwd}

pub record ImageMetadata : Type 0 where
  pub uid : Bytes
  pub gid : Bytes
  pub home_dir : Bytes
  pub has_init : Bool
  pub os_release_id : Bytes

-- Of the answer to an inspection: `ID`, `GraphDriver.Name` and `GraphDriver.Data["MergedDir"]`.
pub record Inspected : Type 0 where
  pub id : Bytes
  pub driver : Bytes
  pub merged_dir : Bytes

pub record ImageSession : Type 0 where
  -- `ContainerCreate` of an image, with the entry point `sleep infinity`
  pub create : Bytes → Result Bytes
  pub start : Bytes → Result {0} Unit
  pub inspect : Bytes → Result Inspected
  -- `ExecContainer` of a command and its arguments
  pub exec : Bytes → List Bytes → Result Bytes

abbrev pub disk_full_storage_driver : Bytes
disk_full_storage_driver = codes "vfs"

abbrev pub etc_os_release : Bytes
etc_os_release = codes "/etc/os-release"

-- `strings.Trim(s, "\"")`
pub trim_quotes_left : Bytes → Bytes
trim_quotes_left [] = []
trim_quotes_left (c ∷ s) = let rest = trim_quotes_left s in if c == 34 then rest else c ∷ s

pub trim_quotes : Bytes → Bytes
unfolding trim_quotes_left
trim_quotes s = reverse (trim_quotes_left (reverse (trim_quotes_left s)))

-- The loop over the lines.
pub id_of_lines : List Bytes → Bytes
unfolding trim_quotes
id_of_lines [] = []
id_of_lines (line ∷ lines) =
    let rest = id_of_lines lines in
    if has_prefix line (codes "ID=") then trim_quotes (trim_prefix line (codes "ID=")) else rest

pub or_linux : Bytes → Bytes
or_linux [] = codes "linux"
or_linux (c ∷ id) = c ∷ id

pub get_os_release_id : Bytes → Bytes
unfolding or_linux id_of_lines
get_os_release_id raw = or_linux (id_of_lines (split raw b'\n'))

-- The fallback where the file cannot be read.
pub release_id : Result Bytes → Bytes
unfolding get_os_release_id
release_id (ok out) = get_os_release_id out
release_id (err e) = codes "linux"

pub succeeds : Result Bytes → Bool
succeeds (ok out) = true
succeeds (err e) = false

pub merged_check : Inspected → Result {0} Unit
merged_check i =
    if same i.merged_dir [] && not (same i.driver disk_full_storage_driver)
    then err (failure (codes "CVMs do not support NFS volumes"))
    else ok tt

pub first_user : Bytes → List User → Result User
first_user username [] = err (failure (codes "no users returned for username " ++ username))
first_user username (user ∷ users) = ok user

-- What is read from the container that was created.
pub read_metadata : ImageSession → Bytes → Bytes → Result ImageMetadata
unfolding merged_check first_user release_id succeeds
read_metadata s username id = do
  _ ← context (codes "start container") (s.start id)
  i ← context (codes "inspect") (s.inspect id)
  _ ← merged_check i
  out ←
      context (codes "get /etc/passwd entry for " ++ username)
        (s.exec i.id (codes "getent" ∷ codes "passwd" ∷ username ∷ []))
  users ← context (codes "parse passwd entry for (" ++ out ++ codes ")") (parse_passwd out)
  user ← first_user username users
  ok (record {
    uid = user.uid;
    gid = user.gid;
    home_dir = user.home_dir;
    has_init = succeeds (s.exec i.id (codes "stat" ∷ codes "/sbin/init" ∷ []));
    os_release_id = release_id (s.exec i.id (codes "cat" ∷ etc_os_release ∷ []));
  })

-- The containers that are removed, and the answer.
pub removed_behind : ImageSession → Bytes → Result Bytes → List Bytes × Result ImageMetadata
unfolding read_metadata
removed_behind s username (ok id) = (id ∷ [], read_metadata s username id)
removed_behind s username (err e) = ([], context (codes "create container") (err e))

unfoldable pub get_image_metadata : ImageSession → Bytes → Bytes → List Bytes × Result ImageMetadata
unfolding removed_behind
get_image_metadata s img username = removed_behind s username (s.create img)

-- `UsrLibDirs` on a machine whose directory of libraries is `multiarch`. A missing key is empty.
usr_lib_dirs : Bytes → Bytes → Bytes
usr_lib_dirs multiarch id =
    if same id (codes "debian")
    then multiarch
    else if same id (codes "ubuntu")
    then multiarch
    else if same id (codes "fedora")
    then codes "/usr/lib64"
    else if same id (codes "rhel")
    then codes "/usr/lib64"
    else if same id (codes "linux")
    then codes "/usr/lib"
    else []

pub usr_lib_dir : Bytes → ImageMetadata → Bytes
unfolding usr_lib_dirs
usr_lib_dir multiarch im =
    let val = usr_lib_dirs multiarch im.os_release_id in
    if not (same val []) then val else usr_lib_dirs multiarch (codes "linux")
