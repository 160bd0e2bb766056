-- ===== src/Xunix/Symlinks/Tests.antt =====
-- Runs of the symlink functions of xunix/gpu.go, and the theorems at concrete file systems.
use envbox.Prelude.{
  ℕ, zero, suc, ◌≡◌, ◌≤◌, refl, Bool, true, false, ◌⊎◌, inl, inr, List, [], ◌∷◌, Option, none, some,
  Bytes, codes, same, Result, ok, err, arith, if◌then◌else◌, Distinct, member, dir, clean,
  join_path, is_abs, context, has_suffix, has_prefix, join, split, ◌>>=◌,
}
use envbox.Xunix.Symlinks.{
  Links, Entry, LinkMap, follow, recursive_symlinks, follow_links, with_slash, link_target,
  put_link, all_links, same_dir_symlinks, visit, visit_all, rounds,
}
use envbox.Xunix.Symlinks.Chain.{
  Chain, recursive_symlinks_sound, recursive_symlinks_complete, recursive_symlinks_cycle,
}
use envbox.Xunix.Symlinks.SameDir.{IsSound, IsComplete, same_dir_symlinks_lem}

abbrev is_link : Bytes → Bool
is_link p = if same p (codes "/m/t") then false else true

-- `/m/b` links to `a`, `/m/a` to `/m/t`, and `/m/t` is a file.
abbrev files : Links
files = record {
  lstat = λ p. ok (is_link p);
  readlink = λ p. if same p (codes "/m/b") then ok (codes "a") else ok (codes "/m/t");
}

-- `/m/x` and `/m/y` link to one another.
abbrev loop : Links
loop = record {
  lstat = λ p. ok true;
  readlink = λ p. if same p (codes "/m/x") then ok (codes "/m/y") else ok (codes "/m/x");
}

abbrev chain : List Bytes
chain = codes "/m/b" ∷ codes "/m/a" ∷ codes "/m/t" ∷ []

chain_run : recursive_symlinks files 3 (codes "/m") (codes "/m/b") ≡ some (ok chain)
unfolding recursive_symlinks follow_links follow with_slash link_target join_path clean dir
    has_prefix has_suffix same envbox.Prelude.join envbox.Prelude.split
chain_run = refl

chain_outside : recursive_symlinks files 3 (codes "/n") (codes "/m/b") ≡ some (ok [])
unfolding recursive_symlinks follow_links with_slash has_prefix has_suffix
chain_outside = refl

recursive_symlinks_sound_example :
    (chain ≡ []) ⊎ Chain files (with_slash (codes "/m")) (codes "/m/b") chain
recursive_symlinks_sound_example =
    recursive_symlinks_sound files 3 (codes "/m") (codes "/m/b") chain_run

chain-Chain : Chain files (with_slash (codes "/m")) (codes "/m/b") chain
unfolding with_slash follow link_target join_path clean dir has_prefix has_suffix same join split
chain-Chain = Chain.link refl refl (Chain.link refl refl (Chain.end refl refl))

recursive_symlinks_complete_example :
    recursive_symlinks files 3 (codes "/m") (codes "/m/b") ≡ some (ok chain)
recursive_symlinks_complete_example =
    recursive_symlinks_complete files 3 (codes "/m") (codes "/m/b") chain-Chain (omega arith)

-- The two links of the loop.
abbrev IsLooped : Bytes → Type 0
IsLooped p = (p ≡ codes "/m/x") ⊎ (p ≡ codes "/m/y")

loop_step :
    (p : Bytes)
    → IsLooped p
    → (has_prefix p (with_slash (codes "/m")) ≡ true)
      × ((q : Bytes) × (follow loop p ≡ ok (some q)) × IsLooped q)
unfolding with_slash follow link_target has_prefix has_suffix same is_abs
loop_step p (inl e) = rw e (refl, (codes "/m/y", refl, inr refl))
loop_step p (inr e) = rw e (refl, (codes "/m/x", refl, inl refl))

recursive_symlinks_cycle_example : recursive_symlinks loop 100 (codes "/m") (codes "/m/x") ≡ none
recursive_symlinks_cycle_example =
    recursive_symlinks_cycle loop 100 (codes "/m") (codes "/m/x") IsLooped loop_step (inl refl)

abbrev entries : List Entry
entries =
    record { name = codes "b"; is_symlink = true }
    ∷ record { name = codes "a"; is_symlink = true }
    ∷ record { name = codes "t"; is_symlink = false }
    ∷ []

abbrev links : LinkMap
links = (codes "/m/b", codes "/m/a") ∷ (codes "/m/a", codes "/m/t") ∷ []

links_run : all_links files (codes "/m/t") entries [] ≡ ok links
unfolding all_links put_link join_path clean dir same envbox.Prelude.join envbox.Prelude.split
links_run = refl

same_dir_run :
    same_dir_symlinks (λ d. ok entries) files (λ k l. l) (codes "/m/t")
    ≡ ok (codes "/m/a" ∷ codes "/m/b" ∷ [])
unfolding same_dir_symlinks all_links put_link rounds visit_all visit join_path clean dir same
    envbox.Prelude.join envbox.Prelude.split
same_dir_run = refl

same_dir_symlinks_lem_example :
    (found : List Bytes) × (same_dir_symlinks (λ d. ok entries) files (λ k l. l) (codes "/m/t")
      ≡ ok found)
    × Distinct found
    × IsSound (codes "/m/t") links found
    × IsComplete (codes "/m/t") links 10 found
same_dir_symlinks_lem_example =
    same_dir_symlinks_lem (λ d. ok entries) files (λ k l. l) (codes "/m/t") entries links refl
      links_run (λ k n d. refl)
