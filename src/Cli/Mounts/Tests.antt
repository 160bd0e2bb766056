-- ===== src/Cli/Mounts/Tests.antt =====
-- The theorems about mounts at concrete inputs.
use envbox.Prelude.{
  ◌≡◌, ◌⊎◌, ◌↔◌, refl, true, false, List, [], ◌∷◌, ◌++◌, Bytes, codes, split, join, cons_first, ok,
  err, arith, cons-ne-nil, same, All, Lacks,
}
use envbox.Prelude.{keep_dir, split_dir}
use envbox.Xunix.Mount.{Mount}
use envbox.Dockerutil.Container.{generate_bind_mounts}
use envbox.Cli.Mounts.{malformed, parse_mount, parse_entries, parse_mounts, is_home_dir}
use envbox.Cli.Mounts.Dirs.{is_home_dir_iff}
use envbox.Cli.Mounts.Parse.{
  IsEntry, mounts_of, parse_mounts_lem, parse_mounts-generate_bind_mounts,
}

abbrev given : Bytes
given = codes "/home/coder:/home/coder,/var/run/mysecret:/var/run/mysecret:ro"

abbrev two_mounts : List Mount
two_mounts =
    record { source = codes "/home/coder"; mountpoint = codes "/home/coder"; read_only = false }
    ∷ record {
      source = codes "/var/run/mysecret";
      mountpoint = codes "/var/run/mysecret";
      read_only = true;
    }
    ∷ []

-- The example of README.md.
parse_given : parse_mounts given ≡ ok two_mounts
unfolding parse_mounts parse_entries parse_mount split cons_first same
parse_given = refl

parse_malformed : parse_mounts (codes "a:b,c") ≡ err (malformed (codes "a:b,c"))
unfolding parse_mounts parse_entries parse_mount split cons_first
parse_malformed = refl

home_dirs :
    (is_home_dir (codes "/root") ≡ true)
    × (is_home_dir (codes "/home/coder") ≡ true)
    × (is_home_dir (codes "/home/coder/") ≡ false)
    × (is_home_dir (codes "/var/lib") ≡ false)
unfolding is_home_dir split_dir keep_dir same
home_dirs = (refl, refl, refl, refl)

parse_mounts_lem_example :
    (All IsEntry (split given b',') × (parse_mounts given ≡ ok (mounts_of (split given b','))))
    ⊎ ((¬ All IsEntry (split given b',')) × (parse_mounts given ≡ err (malformed given)))
parse_mounts_lem_example = parse_mounts_lem given (cons-ne-nil _ _)

parse_mounts-generate_bind_mounts_example :
    parse_mounts (join (generate_bind_mounts two_mounts) b',') ≡ ok two_mounts
parse_mounts-generate_bind_mounts_example =
    parse_mounts-generate_bind_mounts two_mounts (cons-ne-nil _ _) (omega arith)

is_home_dir_iff_example : (is_home_dir (codes "/home/coder") ≡ true) ↔ (
    (codes "/home/coder" ≡ codes "/root")
    ⊎ ((name : Bytes) × (codes "/home/coder" ≡ codes "/home/" ++ name) × Lacks b'/' name))
is_home_dir_iff_example = is_home_dir_iff (codes "/home/coder")
