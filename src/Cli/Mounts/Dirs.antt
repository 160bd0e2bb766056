-- ===== src/Cli/Mounts/Dirs.antt =====
-- Which directories cli/docker.go takes for a home directory.
use envbox.Prelude.{
  ℕ, ◌≡◌, ◌⊎◌, ◌↔◌, refl, ap, ◌∙◌, Bool, true, false, ◌||◌, [], ◌∷◌, ◌++◌, Bytes, codes, same,
  same→eq, same_self, Lacks, arith, Bool-cases, inl, inr, ℕ_discrete, Lacks,
}
use envbox.Prelude.{keep_dir, split_dir}
use envbox.Cli.Mounts.{is_home_dir}

split_dir-Lacks : (s : Bytes) → Lacks b'/' s → split_dir s ≡ []
unfolding split_dir
split_dir-Lacks [] _ = refl
split_dir-Lacks (c ∷ s) (h, hs) = rw (split_dir-Lacks s hs, split_dir) (ground arith)

keep_dir-slash : (c : ℕ) (d : Bytes) → keep_dir c (d ++ b'/' ∷ []) ≡ c ∷ (d ++ b'/' ∷ [])
unfolding keep_dir
keep_dir-slash c [] = refl
keep_dir-slash c (e ∷ d) = refl

split_dir-append :
    (d name : Bytes) → Lacks b'/' name → split_dir (d ++ b'/' ∷ name) ≡ d ++ b'/' ∷ []
unfolding split_dir
split_dir-append [] name h = rw (split_dir-Lacks name h) refl
split_dir-append (c ∷ d) name h = rw (split_dir-append d name h) (keep_dir-slash c d)

extend_name :
    (c : ℕ) (s r name : Bytes)
    → s ≡ r ++ name
    → Lacks b'/' name
    → (name' : Bytes) × (c ∷ s ≡ keep_dir c r ++ name') × Lacks b'/' name'
unfolding keep_dir
extend_name c s [] name e h = elim (ℕ_discrete c b'/') [
  | yes slash ↦ (name, ground arith, h)
  | no other ↦ (c ∷ name, ground arith, (other, h))
]
extend_name c s (d ∷ r) name e h = (name, ap (λ t. c ∷ t) e, h)

-- A path is its directory and a name with no slash.
split_dir-name : (s : Bytes) → (name : Bytes) × (s ≡ split_dir s ++ name) × Lacks b'/' name
unfolding split_dir
split_dir-name [] = ([], refl, tt)
split_dir-name (c ∷ s) =
    let (name, e, h) = split_dir-name s in extend_name c s (split_dir s) name e h

or-true : (b : Bool) → (b || true) ≡ true
or-true true = refl
or-true false = refl

-- A path is a home directory exactly if it is `/root` or stands right below `/home/`.
pub is_home_dir_iff :
    (p : Bytes)
    → (is_home_dir p ≡ true)
      ↔ ((p ≡ codes "/root") ⊎ ((name : Bytes) × (p ≡ codes "/home/" ++ name) × Lacks b'/' name))
unfolding is_home_dir
is_home_dir_iff p = (there, back)
  where
    there :
        is_home_dir p ≡ true
        → (p ≡ codes "/root") ⊎ ((name : Bytes) × (p ≡ codes "/home/" ++ name) × Lacks b'/' name)
    there h = elim (Bool-cases (same p (codes "/root"))) [
      | inl root ↦ inl (same→eq p (codes "/root") root)
      | inr other ↦
          let below : split_dir p ≡ codes "/home/" =
            same→eq (split_dir p) (codes "/home/") (rw other at h) in
          let (name, e, lacks) = split_dir-name p in
          inr (name, e ∙ ap (λ d. d ++ name) below, lacks)
    ]

    back :
        (p ≡ codes "/root") ⊎ ((name : Bytes) × (p ≡ codes "/home/" ++ name) × Lacks b'/' name)
        → is_home_dir p ≡ true
    back (inl e) = rw (e, same_self)
    back (inr (name, e, h)) =
        let below : split_dir p ≡ codes "/home/" =
          ap split_dir e ∙ split_dir-append (codes "/home") name h in
        rw (below, same_self) (or-true (same p (codes "/root")))
