-- ===== src/Dockerutil/Metadata/Tests.antt =====
-- `GetImageMetadata` at an image with a user and a release file.
use envbox.Prelude.{
  ◌≡◌, refl, List, [], ◌∷◌, ◌++◌, same, Bytes, codes, join, trim_space, trim_left, trim_suffix,
  has_suffix, has_prefix, failure, Result, ok, err, if◌then◌else◌, arith,
}
use envbox.Xunix.User.Entries.{Entry, IsPrintable, print_entries}
use envbox.Dockerutil.Metadata.{Inspected, ImageSession, trim_quotes, succeeds, get_image_metadata}
use envbox.Dockerutil.Metadata.Release.{IsInspected, IsOther, release, get_image_metadata_lem}

abbrev coder : Entry
coder = record {
  user = record {
    username = codes "coder";
    uid = codes "1000";
    gid = codes "1000";
    home_dir = codes "/home/coder";
    shell = codes "/bin/sh";
  };
  password = codes "x";
  gecos = codes "Coder";
}

coder-IsPrintable : IsPrintable coder
unfolding join trim_space trim_left trim_suffix has_suffix has_prefix
coder-IsPrintable = (omega arith, omega arith, refl, refl, omega arith)

abbrev overlay : Inspected
overlay = record { id = codes "c1"; driver = codes "overlay2"; merged_dir = codes "/merged" }

abbrev before : List Bytes
before = codes "NAME=Ubuntu" ∷ codes "VERSION_ID=22" ∷ []

abbrev quoted : Bytes
quoted = 34 ∷ codes "ubuntu" ++ 34 ∷ []

abbrev answers : List Bytes → Result Bytes
answers (command ∷ _) =
    if same command (codes "getent")
    then ok (print_entries (coder ∷ []))
    else if same command (codes "cat")
    then ok (release before quoted [])
    else err (failure (codes "exit code 1"))
answers [] = err (failure (codes "no command"))

abbrev session : ImageSession
session = record {
  create = λ img. ok (codes "c1");
  start = λ id. ok tt;
  inspect = λ id. ok overlay;
  exec = λ id command. answers command;
}

overlay-IsInspected : IsInspected session (codes "ubuntu") (codes "coder") (codes "c1") overlay
unfolding same
overlay-IsInspected = (refl, refl, refl, refl)

got_user :
    session.exec overlay.id (codes "getent" ∷ codes "passwd" ∷ codes "coder" ∷ [])
    ≡ ok (print_entries (coder ∷ []))
unfolding same
got_user = refl

got_release :
    session.exec overlay.id (codes "cat" ∷ codes "/etc/os-release" ∷ [])
    ≡ ok (release before quoted [])
unfolding same
got_release = refl

first-IsOther : IsOther (codes "NAME=Ubuntu")
unfolding has_prefix
first-IsOther = (omega arith, refl)

second-IsOther : IsOther (codes "VERSION_ID=22")
unfolding has_prefix
second-IsOther = (omega arith, refl)

quoted_id : trim_quotes quoted ≡ codes "ubuntu"
unfolding trim_quotes
quoted_id = refl

get_image_metadata_lem_example : get_image_metadata session (codes "ubuntu") (codes "coder") ≡ (
  codes "c1" ∷ [],
  ok (record {
    uid = codes "1000";
    gid = codes "1000";
    home_dir = codes "/home/coder";
    has_init = succeeds (session.exec overlay.id (codes "stat" ∷ codes "/sbin/init" ∷ []));
    os_release_id = codes "ubuntu";
  }),
)
get_image_metadata_lem_example =
    get_image_metadata_lem session (codes "ubuntu") (codes "coder") (codes "c1") overlay
      overlay-IsInspected coder [] got_user (coder-IsPrintable, tt) before quoted [] b'u'
      (codes "buntu") got_release (first-IsOther, (second-IsOther, tt)) (omega arith) quoted_id
