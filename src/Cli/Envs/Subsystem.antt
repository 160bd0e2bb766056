-- ===== src/Cli/Envs/Subsystem.antt =====
-- `defaultContainerEnvs` of cli/docker.go: the value of CODER_AGENT_SUBSYSTEM.
use mathlib.Core.List.{reverse, reverse_aux}
use mathlib.Core.Bool.{false≢true}
use envbox.Prelude.{
  member, Distinct, ℕ, ◌≡◌, ◌≢◌, refl, sym, ap, ◌∙◌, Bool, false, ◌&&◌, ◌||◌, not, List, [], ◌∷◌,
  ◌++◌, Bytes, codes, same, same_self, split, trim_space, trim_left, is_space, arith, Bool-cases,
  inl, inr, any, All, Lacks, All-append, split-Lacks, split-join, split_single, has_prefix,
  has_prefix-append, trim_prefix-append,
}
use envbox.Cli.Envs.{
  tidy_names, precedes, insert_name, sort_strings, agent_subsystem, agent_subsystem_env,
  existing_subsystem, default_container_envs,
}
use envbox.Cli.Envs.Sorted.{
  IsSorted, same_congr, member-tidy_names, Distinct-tidy_names, member-sort_strings,
  Distinct-sort_strings, sort_strings-IsSorted,
}

-- The names that `agent_subsystem` joins.
names_of : Bytes → List Bytes
names_of existing = sort_strings (tidy_names (split existing b',' ++ codes "envbox" ∷ []) [])

trim_left-Lacks : (b : ℕ) (s : Bytes) → Lacks b s → Lacks b (trim_left s)
unfolding trim_left
trim_left-Lacks b [] h = tt
trim_left-Lacks b (c ∷ s) (h, hs) = elim (Bool-cases (is_space c)) [
  | inl blank ↦ rw blank (trim_left-Lacks b s hs)
  | inr other ↦ rw other (h, hs)
]

reverse_aux-Lacks : (b : ℕ) (s t : Bytes) → Lacks b s → Lacks b t → Lacks b (reverse_aux s t)
reverse_aux-Lacks b [] t _ ht = ht
reverse_aux-Lacks b (c ∷ s) t (h, hs) ht = reverse_aux-Lacks b s (c ∷ t) hs (h, ht)

reverse-Lacks : (b : ℕ) (s : Bytes) → Lacks b s → Lacks b (reverse s)
reverse-Lacks b s h = reverse_aux-Lacks b s [] h tt

trim_space-Lacks : (b : ℕ) (s : Bytes) → Lacks b s → Lacks b (trim_space s)
unfolding trim_space
trim_space-Lacks b s h =
    reverse-Lacks b _ (trim_left-Lacks b _ (reverse-Lacks b _ (trim_left-Lacks b s h)))

tidy_names-Lacks :
    (b : ℕ) (ss tidy : List Bytes)
    → All (Lacks b) ss
    → All (Lacks b) tidy
    → All (Lacks b) (tidy_names ss tidy)
unfolding tidy_names
tidy_names-Lacks b [] tidy _ h = h
tidy_names-Lacks b (s ∷ ss) tidy (hs, hss) h =
    elim (Bool-cases (same (trim_space s) [] || member (trim_space s) tidy)) [
      | inl skip ↦ rw skip (tidy_names-Lacks b ss tidy hss h)
      | inr add ↦ rw add (
          tidy_names-Lacks b ss _ hss
            (All-append (Lacks b) tidy (trim_space s ∷ []) h (trim_space-Lacks b s hs, tt)))
    ]

insert_name-Lacks :
    (b : ℕ) (s : Bytes) (ts : List Bytes)
    → Lacks b s
    → All (Lacks b) ts
    → All (Lacks b) (insert_name s ts)
unfolding insert_name
insert_name-Lacks b s [] h _ = (h, tt)
insert_name-Lacks b s (t ∷ ts) h (ht, hts) = elim (Bool-cases (precedes s t)) [
  | inl before ↦ rw before (h, (ht, hts))
  | inr after ↦ rw after (ht, insert_name-Lacks b s ts h hts)
]

sort_strings-Lacks : (b : ℕ) (ss : List Bytes) → All (Lacks b) ss → All (Lacks b) (sort_strings ss)
unfolding sort_strings
sort_strings-Lacks b [] _ = tt
sort_strings-Lacks b (s ∷ ss) (h, hs) =
    insert_name-Lacks b s (sort_strings ss) h (sort_strings-Lacks b ss hs)

names_of-Lacks : (existing : Bytes) → All (Lacks b',') (names_of existing)
unfolding names_of
names_of-Lacks existing = sort_strings-Lacks b',' _ (
    tidy_names-Lacks b',' (split existing b',' ++ codes "envbox" ∷ []) []
      (All-append (Lacks b',') (split existing b',') (codes "envbox" ∷ [])
        (split-Lacks existing b',') (omega arith, tt))
      tt)

any-append : (p : Bytes → Bool) (xs ys : List Bytes) → any (xs ++ ys) p ≡ any xs p || any ys p
any-append p [] ys = refl
any-append p (x ∷ xs) ys = ground (arith, any-append p xs ys)

trim_envbox : trim_space (codes "envbox") ≡ codes "envbox"
unfolding trim_space
trim_envbox = refl

member-names_of :
    (n existing : Bytes)
    → member n (names_of existing)
      ≡ same n (codes "envbox")
        || (not (same n []) && any (split existing b',') (λ s. same n (trim_space s)))
unfolding names_of
member-names_of n existing =
    member-sort_strings n _
    ∙ member-tidy_names n (split existing b',' ++ codes "envbox" ∷ []) []
    ∙ rw (any-append, trim_envbox) (ground (arith, same_congr n (codes "envbox") [], same_envbox))
  where
    same_envbox : same (codes "envbox") [] ≡ false
    same_envbox = unfold same in refl

names_of-ne-nil : (existing : Bytes) → names_of existing ≢ []
names_of-ne-nil existing e = false≢true (
    ap (member (codes "envbox")) (sym e) ∙ member-names_of (codes "envbox") existing ∙ rw same_self)

-- What the value lists: the names in order, each once, and a name exactly if it is `envbox` or a
-- name of the old value, trimmed and not empty.
pub record Lists (existing value : Bytes) : Type 0 where
  pub sorted : IsSorted (split value b',')
  pub distinct : Distinct (split value b',')
  pub names :
      (n : Bytes)
      → member n (split value b',')
        ≡ same n (codes "envbox")
          || (not (same n []) && any (split existing b',') (λ s. same n (trim_space s)))

names_of-nil : names_of [] ≡ codes "envbox" ∷ []
unfolding names_of sort_strings tidy_names split same trim_space
names_of-nil = refl

split-agent_subsystem :
    (existing : Bytes) → split (agent_subsystem existing) b',' ≡ names_of existing
unfolding agent_subsystem names_of
split-agent_subsystem [] = split_single (codes "envbox") b',' (omega arith) ∙ sym names_of-nil
split-agent_subsystem (c ∷ s) =
    split-join (names_of (c ∷ s)) b',' (names_of-ne-nil (c ∷ s)) (names_of-Lacks (c ∷ s))

-- The value that the inner container is given for CODER_AGENT_SUBSYSTEM lists, in order and each
-- once, `envbox` and the names of the old value, trimmed and without the empty ones.
pub agent_subsystem_lem : (existing : Bytes) → Lists existing (agent_subsystem existing)
agent_subsystem_lem existing = record {
  sorted = rw (split-agent_subsystem existing) sorted_names;
  distinct = rw (split-agent_subsystem existing) distinct_names;
  names = λ n. ap (member n) (split-agent_subsystem existing) ∙ member-names_of n existing;
}
  where
    sorted_names : IsSorted (names_of existing)
    sorted_names = unfold names_of in sort_strings-IsSorted _

    distinct_names : Distinct (names_of existing)
    distinct_names = unfold names_of in Distinct-sort_strings _ (Distinct-tidy_names _ [] tt)

existing_subsystem_first :
    (before after : List Bytes) (value : Bytes)
    → All (λ e. has_prefix e agent_subsystem_env ≡ false) before
    → existing_subsystem (before ++ (agent_subsystem_env ++ value) ∷ after) ≡ value
unfolding existing_subsystem
existing_subsystem_first [] after value _ =
    rw (has_prefix-append agent_subsystem_env value, trim_prefix-append agent_subsystem_env value)
existing_subsystem_first (e ∷ before) after value (h, hs) =
    rw (h, existing_subsystem_first before after value hs)

-- Where the environment sets CODER_AGENT_SUBSYSTEM, the first entry that does so decides: the inner
-- container is given the token and a value that lists `envbox` and the names of that entry.
pub default_container_envs_lem :
    (before after : List Bytes) (value token : Bytes)
    → All (λ e. has_prefix e agent_subsystem_env ≡ false) before
    → let env = before ++ (agent_subsystem_env ++ value) ∷ after in
      (given : Bytes) × (default_container_envs env token
        ≡ (codes "CODER_AGENT_TOKEN=" ++ token) ∷ (agent_subsystem_env ++ given) ∷ [])
      × Lists value given
unfolding default_container_envs
default_container_envs_lem before after value token h = (
  agent_subsystem value,
  rw (existing_subsystem_first before after value h),
  agent_subsystem_lem value,
)
