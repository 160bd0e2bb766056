-- ===== src/Xunix/User/Tests.antt =====
-- `ParsePasswd` at two entries.
use envbox.Prelude.{
  ◌≡◌, refl, [], ◌∷◌, codes, join, trim_space, trim_left, trim_suffix, has_suffix, has_prefix, ok,
  arith,
}
use envbox.Xunix.User.{parse_passwd}
use envbox.Xunix.User.Entries.{
  Entry, IsPrintable, print_entries, users_of, parse_passwd-print_entries,
}

abbrev root : Entry
root = record {
  user = record {
    username = codes "root";
    uid = codes "0";
    gid = codes "0";
    home_dir = codes "/root";
    shell = codes "/bin/sh";
  };
  password = codes "x";
  gecos = [];
}

abbrev coder : Entry
coder = record {
  user = record {
    username = codes "coder";
    uid = codes "1000";
    gid = codes "1000";
    home_dir = codes "/home/coder";
    shell = codes "/bin/sh";
  };
  password = codes "x";
  gecos = codes "Coder";
}

root-IsPrintable : IsPrintable root
unfolding join trim_space trim_left trim_suffix has_suffix has_prefix
root-IsPrintable = (omega arith, omega arith, refl, refl, omega arith)

coder-IsPrintable : IsPrintable coder
unfolding join trim_space trim_left trim_suffix has_suffix has_prefix
coder-IsPrintable = (omega arith, omega arith, refl, refl, omega arith)

parse_passwd-print_entries_run :
    parse_passwd (print_entries (root ∷ coder ∷ [])) ≡ ok (users_of (root ∷ coder ∷ []))
parse_passwd-print_entries_run =
    parse_passwd-print_entries (root ∷ coder ∷ []) (root-IsPrintable, (coder-IsPrintable, tt))
