-- ===== src/Xunix/User/Entries.antt =====
-- `ParsePasswd` of xunix/user.go reads back the entries that a printer writes.
use envbox.Prelude.{
  ◌<◌, ◌≡◌, refl, sym, ap, ◌∙◌, List, [], ◌∷◌, ◌++◌, append_assoc, append-nil, Bytes, codes, split,
  join, trim_space, trim_suffix, Lacks, All, split-append, split-join, ok, ◌>>=◌, length, leb,
  arith, false, cons-ne-nil, context,
}
use envbox.Xunix.User.{User, parse_passwd, parse_passwd_entry, scan_users, line_user, fields_user}

-- The seven fields of an entry.
pub record Entry : Type 0 where
  pub user : User
  pub password : Bytes
  pub gecos : Bytes

abbrev pub fields_of : Entry → List Bytes
fields_of e =
    e.user.username ∷ e.password ∷ e.user.uid ∷ e.user.gid ∷ e.gecos ∷ e.user.home_dir
    ∷ e.user.shell ∷ []

abbrev pub print_entry : Entry → Bytes
print_entry e = join (fields_of e) b':'

-- The lines of entries, each with its end.
abbrev pub print_entries : List Entry → Bytes
print_entries [] = []
print_entries (e ∷ es) = print_entry e ++ b'\n' ∷ print_entries es

abbrev pub users_of : List Entry → List User
users_of [] = []
users_of (e ∷ es) = e.user ∷ users_of es

-- An entry that the format can hold: no field has a colon or a line feed, the line has no white space
-- at its ends, and it fits in the scanner's buffer.
abbrev pub IsPrintable : Entry → Type 0
IsPrintable e =
    All (Lacks b':') (fields_of e)
    × Lacks b'\n' (print_entry e)
    × (trim_space (print_entry e) ≡ print_entry e)
    × (trim_suffix (print_entry e) (codes "\r") ≡ print_entry e)
    × (length (print_entry e) < 65536)

parse_passwd_entry-print :
    (e : Entry)
    → All (Lacks b':') (fields_of e)
    → trim_space (print_entry e) ≡ print_entry e
    → parse_passwd_entry (print_entry e) ≡ ok e.user
unfolding parse_passwd_entry fields_user
parse_passwd_entry-print e lacks trimmed =
    ap (λ t. fields_user (split t b':')) trimmed
    ∙ ap fields_user (split-join (fields_of e) b':' (cons-ne-nil _ _) lacks)

fitting :
    (line : Bytes)
    → leb 65536 (length line) ≡ false
    → line_user line
      ≡ context
          (codes "failed to parse user entry")
          (parse_passwd_entry (trim_suffix line (codes "\r")))
unfolding line_user
fitting line h = rw h

line_user-print : (e : Entry) → IsPrintable e → line_user (print_entry e) ≡ ok e.user
line_user-print e (lacks, _, trimmed, no_cr, fits) =
    let short : leb 65536 (length (print_entry e)) ≡ false = ground arith in
    fitting (print_entry e) short
    ∙ ap (λ t. context (codes "failed to parse user entry") (parse_passwd_entry t)) no_cr
    ∙ ap (context (codes "failed to parse user entry")) (parse_passwd_entry-print e lacks trimmed)

-- The parts of the printed lines: the entries, and an empty one behind the last line feed.
abbrev lines_of : List Entry → List Bytes
lines_of [] = [] ∷ []
lines_of (e ∷ es) = print_entry e ∷ lines_of es

split-print_entries :
    (es : List Entry) → All IsPrintable es → split (print_entries es) b'\n' ≡ lines_of es
split-print_entries [] _ = unfold split in refl
split-print_entries (e ∷ es) ((_, lacks, _, _, _), a) =
    split-append (print_entry e) b'\n' (print_entries es) lacks
    ∙ ap (λ l. print_entry e ∷ l) (split-print_entries es a)

scan_more :
    (line next : Bytes) (lines : List Bytes) (users : List User) (u : User)
    → line_user line ≡ ok u
    → scan_users (line ∷ next ∷ lines) users ≡ scan_users (next ∷ lines) (users ++ u ∷ [])
unfolding scan_users
scan_more [] next lines users u h =
    ap (λ r. r >>= λ x. scan_users (next ∷ lines) (users ++ x ∷ [])) h
scan_more (c ∷ line) next lines users u h =
    ap (λ r. r >>= λ x. scan_users (next ∷ lines) (users ++ x ∷ [])) h

scan_users-lines_of :
    (es : List Entry) (users : List User)
    → All IsPrintable es
    → scan_users (lines_of es) users ≡ ok (users ++ users_of es)
scan_users-lines_of [] users _ = unfold scan_users in ap ok (sym (append-nil users))
scan_users-lines_of (e ∷ []) users (p, a) =
    scan_more (print_entry e) [] [] users e.user (line_user-print e p)
    ∙ scan_users-lines_of [] (users ++ e.user ∷ []) a
    ∙ ap ok (append_assoc users (e.user ∷ []) [])
scan_users-lines_of (e ∷ e' ∷ es) users (p, a) =
    scan_more (print_entry e) (print_entry e') (lines_of es) users e.user (line_user-print e p)
    ∙ scan_users-lines_of (e' ∷ es) (users ++ e.user ∷ []) a
    ∙ ap ok (append_assoc users (e.user ∷ []) (users_of (e' ∷ es)))

-- Entries that the format of /etc/passwd can hold, printed one to a line, are read back by
-- `ParsePasswd`: their users, in order.
pub parse_passwd-print_entries :
    (es : List Entry) → All IsPrintable es → parse_passwd (print_entries es) ≡ ok (users_of es)
unfolding parse_passwd
parse_passwd-print_entries es a =
    ap (λ l. scan_users l []) (split-print_entries es a) ∙ scan_users-lines_of es [] a
