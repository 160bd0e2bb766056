-- ===== src/Dockerutil/Metadata/Release.antt =====
-- What `GetImageMetadata` of dockerutil/image.go reads from an image with a user and a release file.
use envbox.Prelude.{
  ℕ, ◌≡◌, refl, ap, ◌∙◌, Bool, false, ◌&&◌, not, List, [], ◌∷◌, ◌++◌, Bytes, codes, same, split,
  has_prefix, trim_prefix, Lacks, All, split-append, ok,
}
use envbox.Xunix.User.{User, parse_passwd}
use envbox.Xunix.User.Entries.{
  Entry, IsPrintable, print_entries, users_of, parse_passwd-print_entries,
}
use envbox.Dockerutil.Metadata.{
  Inspected, ImageSession, disk_full_storage_driver, etc_os_release, trim_quotes, id_of_lines,
  or_linux, get_os_release_id, release_id, succeeds, merged_check, first_user, read_metadata,
  removed_behind, get_image_metadata,
}

-- A line that is no `ID`.
abbrev pub IsOther : Bytes → Type 0
IsOther line = Lacks b'\n' line × (has_prefix line (codes "ID=") ≡ false)

-- A release file: other lines, the line of the `ID`, and any text.
abbrev pub release : List Bytes → Bytes → Bytes → Bytes
release [] quoted rest = (codes "ID=" ++ quoted) ++ b'\n' ∷ rest
release (line ∷ lines) quoted rest = line ++ b'\n' ∷ release lines quoted rest

other_line :
    (line : Bytes) (lines : List Bytes)
    → has_prefix line (codes "ID=") ≡ false
    → id_of_lines (line ∷ lines) ≡ id_of_lines lines
unfolding id_of_lines
other_line line lines h = rw (id_of_lines, h) refl

id_line :
    (quoted : Bytes) (lines : List Bytes)
    → id_of_lines ((codes "ID=" ++ quoted) ∷ lines) ≡ trim_quotes quoted
unfolding id_of_lines has_prefix trim_prefix
id_line quoted lines = refl

id_of_lines-release :
    (before : List Bytes) (quoted rest : Bytes)
    → All IsOther before
    → Lacks b'\n' (codes "ID=" ++ quoted)
    → id_of_lines (split (release before quoted rest) b'\n') ≡ trim_quotes quoted
id_of_lines-release [] quoted rest _ lacks =
    ap id_of_lines (split-append (codes "ID=" ++ quoted) b'\n' rest lacks)
    ∙ id_line quoted (split rest b'\n')
id_of_lines-release (line ∷ lines) quoted rest ((here, other), a) lacks =
    ap id_of_lines (split-append line b'\n' (release lines quoted rest) here)
    ∙ other_line line (split (release lines quoted rest) b'\n') other
    ∙ id_of_lines-release lines quoted rest a lacks

release_id-release :
    (before : List Bytes) (quoted rest : Bytes) (c : ℕ) (v : Bytes)
    → All IsOther before
    → Lacks b'\n' (codes "ID=" ++ quoted)
    → trim_quotes quoted ≡ c ∷ v
    → release_id (ok (release before quoted rest)) ≡ c ∷ v
unfolding release_id get_os_release_id
release_id-release before quoted rest c v a lacks trimmed =
    ap or_linux (id_of_lines-release before quoted rest a lacks ∙ trimmed) ∙ unfold or_linux in refl

-- A created container whose merged directory is known, or whose driver is that of a full disk.
module _ (s : ImageSession) (img username id : Bytes) (i : Inspected) where
  abbrev pub IsInspected : Type 0
  IsInspected =
      (s.create img ≡ ok id)
      × (s.start id ≡ ok tt)
      × (s.inspect id ≡ ok i)
      × (same i.merged_dir [] && not (same i.driver disk_full_storage_driver) ≡ false)

  read_users :
      IsInspected
      → (out : Bytes) (user : User) (users : List User) (has_init : Bool) (os : Bytes)
      → s.exec i.id (codes "getent" ∷ codes "passwd" ∷ username ∷ []) ≡ ok out
      → parse_passwd out ≡ ok (user ∷ users)
      → succeeds (s.exec i.id (codes "stat" ∷ codes "/sbin/init" ∷ [])) ≡ has_init
      → release_id (s.exec i.id (codes "cat" ∷ etc_os_release ∷ [])) ≡ os
      → get_image_metadata s img username ≡ (
        id ∷ [],
        ok (record {
          uid = user.uid;
          gid = user.gid;
          home_dir = user.home_dir;
          has_init = has_init;
          os_release_id = os;
        }),
      )
  unfolding get_image_metadata removed_behind read_metadata merged_check first_user
  read_users (created, started, inspected, merged) out user users has_init os got parsed init
        os_id =
      rw (created, started, inspected, merged, got, parsed, init, os_id) refl

-- Where the container of an image is created, started and inspected and has a merged directory (or the
-- driver for a full disk), `getent` prints entries that the format of /etc/passwd can hold, and
-- /etc/os-release has an `ID` line whose value between quotes is not empty behind lines that are no `ID`
-- lines, `GetImageMetadata` answers with the user, group and home of the first entry, that `ID`, and
-- whether /sbin/init can be read, and removes the container.
pub get_image_metadata_lem :
    (s : ImageSession) (img username id : Bytes) (i : Inspected)
    → IsInspected s img username id i
    → (e : Entry) (es : List Entry)
    → s.exec i.id (codes "getent" ∷ codes "passwd" ∷ username ∷ []) ≡ ok (print_entries (e ∷ es))
    → All IsPrintable (e ∷ es)
    → (before : List Bytes) (quoted rest : Bytes) (c : ℕ) (v : Bytes)
    → s.exec i.id (codes "cat" ∷ etc_os_release ∷ []) ≡ ok (release before quoted rest)
    → All IsOther before
    → Lacks b'\n' (codes "ID=" ++ quoted)
    → trim_quotes quoted ≡ c ∷ v
    → get_image_metadata s img username ≡ (
      id ∷ [],
      ok (record {
        uid = e.user.uid;
        gid = e.user.gid;
        home_dir = e.user.home_dir;
        has_init = succeeds (s.exec i.id (codes "stat" ∷ codes "/sbin/init" ∷ []));
        os_release_id = c ∷ v;
      }),
    )
get_image_metadata_lem s img username id i inspected e es got printable before quoted rest c v cat
      others lacks trimmed =
    read_users s img username id i inspected (print_entries (e ∷ es)) e.user (users_of es) _ (c ∷ v)
      got (parse_passwd-print_entries (e ∷ es) printable) refl
      (ap release_id cat ∙ release_id-release before quoted rest c v others lacks trimmed)
