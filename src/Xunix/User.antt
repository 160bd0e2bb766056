-- ===== src/Xunix/User.antt =====
-- xunix/user.go: the entries of /etc/passwd, on ASCII texts. A `bufio.Scanner` gives the lines without
-- their ends, and an error for a line that does not fit in its buffer of 64 KiB.
pub mod Entries
mod Tests
use envbox.Prelude.{
  ℕ, List, [], ◌∷◌, ◌++◌, Bytes, codes, same, split, join, trim_space, failure, wrap, Result, ok,
  err, ◌>>=◌, context, leb, if◌then◌else◌, length, trim_suffix,
}

pub record User : Type 0 where
  pub username : Bytes
  pub uid : Bytes
  pub gid : Bytes
  pub home_dir : Bytes
  pub shell : Bytes

-- The user of the fields of an entry. The error shows the fields as Go prints a slice.
fields_user : List Bytes → Result User
fields_user (name ∷ password ∷ uid ∷ gid ∷ gecos ∷ home ∷ shell ∷ _) =
    ok (record { username = name; uid = uid; gid = gid; home_dir = home; shell = shell })
fields_user fields = err (
    failure (
      codes "user info (["
      ++ join fields b' '
      ++ codes "]) contained an unexpected number of fields"))

pub parse_passwd_entry : Bytes → Result User
unfolding fields_user
parse_passwd_entry entry = fields_user (split (trim_space entry) b':')

-- What the scanner makes of a line, and the loop of what is made of that.
line_user : Bytes → Result User
unfolding parse_passwd_entry
line_user line =
    if leb 65536 (length line)
    then err
        (wrap (codes "failed to parse passwd") (failure (codes "bufio.Scanner: token too long")))
    else context (codes "failed to parse user entry")
        (parse_passwd_entry (trim_suffix line (codes "\r")))

-- The loop over the parts of the text between line feeds. An empty last part is no line.
scan_users : List Bytes → List User → Result (List User)
unfolding line_user
scan_users [] users = ok users
scan_users ([] ∷ []) users = ok users
scan_users ((c ∷ line) ∷ []) users = do user ← line_user (c ∷ line); ok (users ++ user ∷ [])
scan_users (line ∷ next ∷ lines) users = do
  user ← line_user line
  scan_users (next ∷ lines) (users ++ user ∷ [])

unfoldable pub parse_passwd : Bytes → Result (List User)
unfolding scan_users
parse_passwd raw = scan_users (split raw b'\n') []
