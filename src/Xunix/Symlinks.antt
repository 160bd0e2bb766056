-- ===== src/Xunix/Symlinks.antt =====
-- xunix/gpu.go: `recursiveSymlinks` and `SameDirSymlinks`.
--
-- The file system is a parameter: what `LStat`, `Readlink` and `ReadDir` answer. Go visits the entries
-- of a map in any order, anew for each loop over it: `shuffle k` is the order of round `k`.
pub mod Chain
pub mod SameDir
mod Tests
mod Visit
use envbox.Prelude.{
  ℕ, zero, suc, Bool, true, false, ◌||◌, ◌&&◌, not, List, [], ◌∷◌, ◌++◌, Option, none, some, Bytes,
  codes, same, Result, ok, err, ◌>>=◌, context, quote, if◌then◌else◌, any, has_prefix, has_suffix,
  is_abs, dir, join_path,
}

pub record Links : Type 0 where
  -- `stat.Mode()&os.ModeSymlink != 0`
  pub lstat : Bytes → Result Bool
  pub readlink : Bytes → Result Bytes

pub record Entry : Type 0 where
  pub name : Bytes
  pub is_symlink : Bool

-- `mountpoint` with a slash at its end.
unfoldable pub with_slash : Bytes → Bytes
with_slash mountpoint =
    if has_suffix mountpoint (codes "/") then mountpoint else mountpoint ++ codes "/"

-- The path that a link at `path` points to.
unfoldable pub link_target : Bytes → Bytes → Bytes
link_target path link = if is_abs link then link else join_path (dir path ∷ link ∷ [])

module _ (fs : Links) where
  unfoldable pub next_path : Bytes → Bytes → Result (Option Bytes)
  unfolding link_target
  next_path path [] = ok none
  next_path path (c ∷ link) = ok (some (link_target path (c ∷ link)))

  -- What one round of the loop of `recursiveSymlinks` finds at a path: an error, the end of the chain,
  -- or the next path.
  unfoldable pub follow : Bytes → Result (Option Bytes)
  unfolding next_path
  follow path =
      let to = context (codes "readlink " ++ quote path) (fs.readlink path) >>= next_path path in
      do
        symlink ← context (codes "lstat " ++ quote path) (fs.lstat path)
        if symlink then to else ok none

  -- The loop, with `none` where it needs more rounds than the fuel.
  unfoldable pub follow_links : ℕ → Bytes → Bytes → List Bytes → Option (Result (List Bytes))
  follow_links zero mountpoint path paths = none
  follow_links (suc fuel) mountpoint path paths = elim (has_prefix path mountpoint) [
    | false ↦ some (ok [])
    | true ↦ elim (follow path) [
      | err e ↦ some (err e)
      | ok none ↦ some (ok (paths ++ path ∷ []))
      | ok (some path') ↦ follow_links fuel mountpoint path' (paths ++ path ∷ [])
    ]
  ]

  unfoldable pub recursive_symlinks : ℕ → Bytes → Bytes → Option (Result (List Bytes))
  unfolding follow_links
  recursive_symlinks fuel mountpoint path = follow_links fuel (with_slash mountpoint) path []

-- The map from links to their destinations, in some order.
abbrev pub LinkMap : Type 0
LinkMap = List (Bytes × Bytes)

-- `allLinks[name] = dest`
pub put_link : Bytes → Bytes → LinkMap → LinkMap
put_link name dest [] = (name, dest) ∷ []
put_link name dest ((n, d) ∷ m) =
    let rest = put_link name dest m in if same n name then (name, dest) ∷ m else (n, d) ∷ rest

-- The loop that maps the links of a directory to their destinations.
module _ (fs : Links) (target : Bytes) where
  pub all_links : List Entry → LinkMap → Result LinkMap
  all_links [] links = ok links
  all_links (fi ∷ fis) links =
      let path = join_path (dir target ∷ fi.name ∷ []) in
      let skip = all_links fis links in
      let add = (do
        link ← context (codes "readlink " ++ quote fi.name) (fs.readlink path)
        all_links fis (
            put_link path (if is_abs link then link else join_path (dir target ∷ link ∷ []))
              links)) in
      if fi.is_symlink then add else skip

module _ (target : Bytes) where
  -- What the loop over the map does for one link: the names found, and whether a name is new.
  pub visit : Bytes × Bytes → List Bytes × Bool → List Bytes × Bool
  visit (name, dest) (found, fresh) =
      if same (dir name) (dir target)
      then if same dest target && not (any found (same name))
        then (found ++ name ∷ [], true)
        else if any found (same dest) && not (any found (same name))
        then (found ++ name ∷ [], true)
        else (found, fresh)
      else (found, fresh)

  pub visit_all : LinkMap → List Bytes × Bool → List Bytes × Bool
  visit_all [] s = s
  visit_all (l ∷ links) s = visit_all links (visit l s)

  -- `for range maxIterations`, which stops after a round that finds nothing new.
  pub rounds : ℕ → (ℕ → LinkMap) → List Bytes → List Bytes
  rounds zero order found = found
  rounds (suc n) order found =
      let (found', fresh) = visit_all (order n) (found, false) in
      elim fresh [ true ↦ rounds n order found' | false ↦ found' ]

abbrev pub max_iterations : ℕ
max_iterations = 10

pub same_dir_symlinks :
    (Bytes → Result (List Entry)) → Links → (ℕ → LinkMap → LinkMap) → Bytes → Result (List Bytes)
same_dir_symlinks read_dir fs shuffle target = do
  fis ← context (codes "read dir " ++ quote (dir target)) (read_dir (dir target))
  links ← all_links fs target fis []
  ok (rounds target max_iterations (λ k. shuffle k links) [])
