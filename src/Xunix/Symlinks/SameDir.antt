-- ===== src/Xunix/Symlinks/SameDir.antt =====
-- `SameDirSymlinks` of xunix/gpu.go: which links it finds, in whatever order the map is visited.
use mathlib.Core.Path.{subst}
use envbox.Prelude.{
  ℕ, zero, suc, ◌+◌, ◌<◌, ◌≡◌, refl, sym, ◌∙◌, Bool, true, false, ◌||◌, List, [], ◌∷◌, ◌++◌, Bytes,
  same, same→eq, same_self, Result, ok, arith, Bool-cases, inl, inr, member, Distinct,
  member-append, dir,
}
use envbox.Xunix.Symlinks.{
  LinkMap, Links, Entry, visit, visit_all, rounds, max_iterations, all_links, same_dir_symlinks,
}
use envbox.Xunix.Symlinks.Visit.{
  holds, Leads, direct, over, visit_all_adds, visit-cases, visit_all_stale, visit_all-Distinct,
  rounds_more, rounds_stop, rounds-invariant,
}

-- The names whose link leads to the target over fewer than `j` links.
abbrev pub IsComplete : Bytes → LinkMap → ℕ → List Bytes → Type 0
IsComplete target links j found =
    (name : Bytes) (k : ℕ) → k < j → Leads target links name k → member name found ≡ true

-- The names all lead to the target.
abbrev pub IsSound : Bytes → LinkMap → List Bytes → Type 0
IsSound target links found =
    (name : Bytes) → member name found ≡ true → (k : ℕ) × Leads target links name k

-- Two lists of links are the same map.
abbrev pub SameMap : LinkMap → LinkMap → Type 0
SameMap m m' = (n d : Bytes) → holds m n d ≡ holds m' n d

module _ (target : Bytes) (links : LinkMap) where
  IsComplete-round :
      (order : LinkMap) (j : ℕ) (found : List Bytes)
      → SameMap order links
      → IsComplete target links j found
      → IsComplete target links (suc j) (visit_all target order (found, false)).0
  IsComplete-round order j found same_map c name k lt (direct dest held here to) =
      visit_all_adds target name dest order (found, false) (same_map name dest ∙ held) here (rw to)
  IsComplete-round order j found same_map c name k lt (over {k = i} dest held here leads) =
      visit_all_adds target name dest order (found, false) (same_map name dest ∙ held) here
        (ground (arith, c dest i (omega arith) leads))

  -- Names that a round leaves as they are lack no link at all.
  IsComplete-stale :
      (order : LinkMap) (found : List Bytes)
      → SameMap order links
      → (visit_all target order (found, false)).0 ≡ found
      → (j : ℕ) → IsComplete target links j found
  IsComplete-stale order found same_map stale zero name k lt leads = absurd (omega arith)
  IsComplete-stale order found same_map stale (suc j) name k lt leads =
      subst (λ f. member name f ≡ true) stale
        (IsComplete-round order j found same_map (IsComplete-stale order found same_map stale j)
          name k lt leads)

  rounds-IsComplete :
      (n : ℕ) (order : ℕ → LinkMap) (j : ℕ) (found : List Bytes)
      → ((k : ℕ) → SameMap (order k) links)
      → IsComplete target links j found
      → IsComplete target links (j + n) (rounds target n order found)
  unfolding rounds
  rounds-IsComplete zero order j found same_map c =
      let e : j + 0 ≡ j = omega arith in subst (λ k. IsComplete target links k found) (sym e) c
  rounds-IsComplete (suc n) order j found same_map c =
      let found' = (visit_all target (order n) (found, false)).0 in
      elim (Bool-cases (visit_all target (order n) (found, false)).1) [
        | inl more ↦
            let e : suc j + n ≡ j + suc n = omega arith in
            subst (IsComplete target links (j + suc n))
              (sym (rounds_more target n order found more))
              (subst (λ k. IsComplete target links k (rounds target n order found')) e
                (rounds-IsComplete n order (suc j) found' same_map
                  (IsComplete-round (order n) j found (same_map n) c)))
        | inr stop ↦
            let kept = (visit_all_stale target (order n) (found, false) stop).0 in
            subst (IsComplete target links (j + suc n))
              (sym (rounds_stop target n order found stop ∙ kept))
              (IsComplete-stale (order n) found (same_map n) kept (j + suc n))
      ]

  visit-IsSound :
      (name dest : Bytes) (s : List Bytes × Bool)
      → holds links name dest ≡ true
      → IsSound target links s.0
      → IsSound target links (visit target (name, dest) s).0
  visit-IsSound name dest s held sound = elim (visit-cases target name dest s) [
    | inl kept ↦ subst (IsSound target links) (sym kept) sound
    | inr (added, _, here, to) ↦ subst (IsSound target links) (sym added) (added_IsSound here to)
  ]
    where
      own :
          same (dir name) (dir target) ≡ true
          → same dest target || member dest s.0 ≡ true
          → (k : ℕ) × Leads target links name k
      own here to = elim (Bool-cases (same dest target)) [
        | inl t ↦ (0, direct dest held here t)
        | inr f ↦ let (k, leads) = sound dest (rw f at to) in (suc k, over dest held here leads)
      ]

      added_IsSound :
          same (dir name) (dir target) ≡ true
          → same dest target || member dest s.0 ≡ true
          → (n : Bytes) → member n (s.0 ++ name ∷ []) ≡ true
          → (k : ℕ) × Leads target links n k
      added_IsSound here to n h = elim (Bool-cases (member n s.0)) [
        | inl old ↦ sound n old
        | inr new ↦
            let e : n ≡ name = ground (arith, member-append n s.0 (name ∷ []), same→eq n name) in
            subst (λ m. (k : ℕ) × Leads target links m k) (sym e) (own here to)
      ]

  visit_all-IsSound :
      (order : LinkMap) (s : List Bytes × Bool)
      → ((n d : Bytes) → holds order n d ≡ true → holds links n d ≡ true)
      → IsSound target links s.0
      → IsSound target links (visit_all target order s).0
  unfolding visit_all
  visit_all-IsSound [] s held sound = sound
  visit_all-IsSound ((n, d) ∷ order) s held sound =
      visit_all-IsSound order (visit target (n, d) s) (λ n' d' h. held n' d' (ground arith))
        (visit-IsSound n d s (held n d (ground (arith, same_self n, same_self d))) sound)

-- What the code needs of the directory: it can be read, and so can its links.
-- Then, in whatever order the map is visited, `SameDirSymlinks` returns names without a repetition,
-- each is a link of the target's directory that leads to the target over links of that directory, and
-- all such names whose chain has at most ten links are among them.
pub same_dir_symlinks_lem :
    (read_dir : Bytes → Result (List Entry)) (fs : Links) (shuffle : ℕ → LinkMap → LinkMap)
    (target : Bytes) (fis : List Entry) (links : LinkMap)
    → read_dir (dir target) ≡ ok fis
    → all_links fs target fis [] ≡ ok links
    → ((k : ℕ) → SameMap (shuffle k links) links)
    → (found : List Bytes) × (same_dir_symlinks read_dir fs shuffle target ≡ ok found)
      × Distinct found
      × IsSound target links found
      × IsComplete target links 10 found
unfolding same_dir_symlinks
same_dir_symlinks_lem read_dir fs shuffle target fis links read linked same_map =
    let order : ℕ → LinkMap = λ k. shuffle k links in
    (
      rounds target max_iterations order [],
      rw (read, linked) refl,
      rounds-invariant target Distinct 10 order
          (λ k found d. visit_all-Distinct target (order k) (found, false) d) [] tt,
      rounds-invariant target (IsSound target links) 10 order
          (λ k found sound.
            visit_all-IsSound target links (order k) (found, false)
              (λ n d h. sym (same_map k n d) ∙ h) sound)
          [] (λ name h. absurd (cc h)),
      rounds-IsComplete target links 10 order 0 [] same_map
          (λ name k lt leads. absurd (omega arith)),
    )
