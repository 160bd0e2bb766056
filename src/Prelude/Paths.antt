-- ===== src/Prelude/Paths.antt =====
-- Go's `path` and `path/filepath` on Unix.
use Prim.Native.Nat.{ℕ}
use mathlib.Core.Bool.{Bool, true, false, ◌||◌}
use mathlib.Core.List.{List, [], ◌∷◌, reverse}
use envbox.Prelude.Tests.{◌==◌, if◌then◌else◌}
use envbox.Prelude.Text.{Bytes, codes, same, split, join}

-- A byte before a directory: it is kept if a slash follows, or if it is one.
unfoldable pub keep_dir : ℕ → Bytes → Bytes
keep_dir c [] = if c == b'/' then c ∷ [] else []
keep_dir c (d ∷ ds) = c ∷ d ∷ ds

-- The directory of `path.Split`: the path up to its last slash, the slash included.
unfoldable pub split_dir : Bytes → Bytes
unfolding keep_dir
split_dir [] = []
split_dir (c ∷ s) = keep_dir c (split_dir s)

-- `filepath.IsAbs`
unfoldable pub is_abs : Bytes → Bool
is_abs [] = false
is_abs (c ∷ s) = c == b'/'

-- A `..` behind the elements so far, the last one first.
clean_up : Bool → List Bytes → List Bytes
clean_up true [] = []
clean_up false [] = codes ".." ∷ []
clean_up rooted (x ∷ xs) = if same x (codes "..") then codes ".." ∷ x ∷ xs else xs

clean_elements : Bool → List Bytes → List Bytes → List Bytes
unfolding clean_up
clean_elements rooted [] stack = stack
clean_elements rooted (x ∷ xs) stack = clean_elements rooted xs (
    if same x [] || same x (codes ".")
    then stack
    else if same x (codes "..")
    then clean_up rooted stack
    else x ∷ stack)

dot_if_empty : Bytes → Bytes
dot_if_empty [] = codes "."
dot_if_empty (c ∷ s) = c ∷ s

-- `filepath.Clean`
unfoldable pub clean : Bytes → Bytes
unfolding clean_elements is_abs dot_if_empty
clean p =
    let body = join (reverse (clean_elements (is_abs p) (split p b'/') [])) b'/' in
    if is_abs p then b'/' ∷ body else dot_if_empty body

-- `filepath.Dir`
unfoldable pub dir : Bytes → Bytes
unfolding clean split_dir
dir p = clean (split_dir p)

-- `filepath.Join`
unfoldable pub join_path : List Bytes → Bytes
unfolding clean
join_path [] = []
join_path ([] ∷ elems) = join_path elems
join_path ((c ∷ s) ∷ elems) = clean (join ((c ∷ s) ∷ elems) b'/')
