-- ===== src/Xunix/Symlinks/Visit.antt =====
-- One visit of a link, one round over the map, and the rounds of `SameDirSymlinks` in xunix/gpu.go.
use mathlib.Core.Path.{subst}
use envbox.Prelude.{
  ℕ, zero, suc, ◌≡◌, ◌⊎◌, refl, sym, ◌∙◌, Bool, true, false, ◌&&◌, ◌||◌, List, [], ◌∷◌, ◌++◌, Bytes,
  same, same→eq, same_self, arith, Bool-cases, inl, inr, member, Distinct, member-append,
  Distinct-snoc, dir,
}
use envbox.Xunix.Symlinks.{LinkMap, visit, visit_all, rounds}

-- The map holds this link with this destination.
abbrev pub holds : LinkMap → Bytes → Bytes → Bool
holds [] n d = false
holds ((n', d') ∷ m) n d = (same n n' && same d d') || holds m n d

-- A link of the target's directory that leads to the target over `k` links of the map.
pub data Leads (target : Bytes) (links : LinkMap) : Bytes → ℕ → Type 0 where
  direct :
      {name : Bytes} (dest : Bytes)
      → holds links name dest ≡ true
      → same (dir name) (dir target) ≡ true
      → same dest target ≡ true
      → Leads target links name 0
  over :
      {name : Bytes} {k : ℕ} (dest : Bytes)
      → holds links name dest ≡ true
      → same (dir name) (dir target) ≡ true
      → Leads target links dest k
      → Leads target links name (suc k)

module _ (target : Bytes) where
  -- A link to the target or to a name found is itself found after its visit.
  visit_adds :
      (name dest : Bytes) (s : List Bytes × Bool)
      → same (dir name) (dir target) ≡ true
      → same dest target || member dest s.0 ≡ true
      → member name (visit target (name, dest) s).0 ≡ true
  unfolding visit
  visit_adds name dest (found, fresh) here to =
      ground (arith, member-append name found (name ∷ []), same_self name)

  visit_keeps :
      (n : Bytes) (l : Bytes × Bytes) (s : List Bytes × Bool)
      → member n s.0 ≡ true
      → member n (visit target l s).0 ≡ true
  unfolding visit
  visit_keeps n (name, dest) (found, fresh) h = ground (arith, member-append n found (name ∷ []))

  visit_all_keeps :
      (n : Bytes) (links : LinkMap) (s : List Bytes × Bool)
      → member n s.0 ≡ true
      → member n (visit_all target links s).0 ≡ true
  unfolding visit_all
  visit_all_keeps n [] s h = h
  visit_all_keeps n (l ∷ links) s h =
      visit_all_keeps n links (visit target l s) (visit_keeps n l s h)

  -- After a round over the map, so is every link to the target or to a name found before.
  pub visit_all_adds :
      (name dest : Bytes) (links : LinkMap) (s : List Bytes × Bool)
      → holds links name dest ≡ true
      → same (dir name) (dir target) ≡ true
      → same dest target || member dest s.0 ≡ true
      → member name (visit_all target links s).0 ≡ true
  unfolding visit_all
  visit_all_adds name dest [] s h here to = cc
  visit_all_adds name dest ((n, d) ∷ links) s h here to =
      elim (Bool-cases (same name n && same dest d)) [
        | inl this ↦
            let same_name : name ≡ n = ground (arith, same→eq name n) in
            let same_dest : dest ≡ d = ground (arith, same→eq dest d) in
            visit_all_keeps name links (visit target (n, d) s)
              (rw (← same_name, ← same_dest) (visit_adds name dest s here to))
        | inr other ↦
            visit_all_adds name dest links (visit target (n, d) s) (rw other at h) here
              (elim (Bool-cases (same dest target)) [
                | inl t ↦ rw t
                | inr f ↦ rw f (visit_keeps dest (n, d) s (rw f at to))
              ])
      ]

  visit_stale :
      (l : Bytes × Bytes) (s : List Bytes × Bool)
      → (visit target l s).1 ≡ false
      → ((visit target l s).0 ≡ s.0) × (s.1 ≡ false)
  unfolding visit
  visit_stale (name, dest) (found, fresh) h = ground arith

  -- A round that finds nothing new leaves the names as they were.
  pub visit_all_stale :
      (links : LinkMap) (s : List Bytes × Bool)
      → (visit_all target links s).1 ≡ false
      → ((visit_all target links s).0 ≡ s.0) × (s.1 ≡ false)
  unfolding visit_all
  visit_all_stale [] s h = (refl, h)
  visit_all_stale (l ∷ links) s h =
      let (kept, stale) = visit_all_stale links (visit target l s) h in
      let (kept', stale') = visit_stale l s stale in (kept ∙ kept', stale')

  -- What one visit does to the names found: nothing, or it adds a link that is new.
  pub visit-cases :
      (name dest : Bytes) (s : List Bytes × Bool)
      → ((visit target (name, dest) s).0 ≡ s.0)
        ⊎ (((visit target (name, dest) s).0 ≡ s.0 ++ name ∷ [])
            × (member name s.0 ≡ false)
            × (same (dir name) (dir target) ≡ true)
            × (same dest target || member dest s.0 ≡ true))
  unfolding visit
  visit-cases name dest (found, fresh) = elim (Bool-cases (same (dir name) (dir target))) [
    | inr away ↦ inl (rw away)
    | inl here ↦ elim (Bool-cases (member name found)) [
      | inl old ↦ inl (ground arith)
      | inr new ↦ elim (Bool-cases (same dest target || member dest found)) [
        | inl to ↦ inr (ground arith, new, here, to)
        | inr off ↦ inl (ground arith)
      ]
    ]
  ]

  visit-Distinct :
      (l : Bytes × Bytes) (s : List Bytes × Bool) → Distinct s.0 → Distinct (visit target l s).0
  visit-Distinct (name, dest) s d = elim (visit-cases name dest s) [
    | inl kept ↦ subst Distinct (sym kept) d
    | inr (added, new, _, _) ↦ subst Distinct (sym added) (Distinct-snoc s.0 name d new)
  ]

  pub visit_all-Distinct :
      (links : LinkMap) (s : List Bytes × Bool)
      → Distinct s.0
      → Distinct (visit_all target links s).0
  unfolding visit_all
  visit_all-Distinct [] s d = d
  visit_all-Distinct (l ∷ links) s d =
      visit_all-Distinct links (visit target l s) (visit-Distinct l s d)

  module _ (n : ℕ) (order : ℕ → LinkMap) (found : List Bytes) where
    pub rounds_more :
        (visit_all target (order n) (found, false)).1 ≡ true
        → rounds target (suc n) order found
          ≡ rounds target n order (visit_all target (order n) (found, false)).0
    unfolding rounds
    rounds_more more = rw (more, rounds)

    pub rounds_stop :
        (visit_all target (order n) (found, false)).1 ≡ false
        → rounds target (suc n) order found ≡ (visit_all target (order n) (found, false)).0
    unfolding rounds
    rounds_stop stop = rw (stop, rounds)

  -- What each round over the map preserves holds after all of them.
  pub rounds-invariant :
      (P : List Bytes → Type 0) (n : ℕ) (order : ℕ → LinkMap)
      → ((k : ℕ) (found : List Bytes) → P found → P (visit_all target (order k) (found, false)).0)
      → (found : List Bytes) → P found
      → P (rounds target n order found)
  rounds-invariant P zero order step found h = unfold rounds in h
  rounds-invariant P (suc n) order step found h =
      let found' = (visit_all target (order n) (found, false)).0 in
      elim (Bool-cases (visit_all target (order n) (found, false)).1) [
        | inl more ↦
            subst P (sym (rounds_more n order found more))
              (rounds-invariant P n order step found' (step n found h))
        | inr stop ↦ subst P (sym (rounds_stop n order found stop)) (step n found h)
      ]
