-- ===== src/Prelude/PathTests.antt =====
-- Paths at the inputs of Go's documentation.
use mathlib.Core.Path.{◌≡◌, refl}
use mathlib.Core.List.{[], ◌∷◌}
use envbox.Prelude.Text.{codes, same, split, join, cons_first}
use envbox.Prelude.Paths.{clean, dir, join_path}

clean_runs :
    (clean (codes "/a//b/./../c/") ≡ codes "/a/c")
    × (clean (codes "") ≡ codes ".")
    × (clean (codes "/..") ≡ codes "/")
    × (clean (codes "a/../../b") ≡ codes "../b")
unfolding clean split cons_first join same
clean_runs = (refl, refl, refl, refl)

dir_runs :
    (dir (codes "/usr/lib/x.so") ≡ codes "/usr/lib")
    × (dir (codes "x") ≡ codes ".")
    × (dir (codes "/x") ≡ codes "/")
unfolding dir split cons_first join same
dir_runs = (refl, refl, refl)

join_path_runs : join_path (codes "/home/coder" ∷ codes ".coder" ∷ []) ≡ codes "/home/coder/.coder"
unfolding join_path split cons_first join same
join_path_runs = refl
