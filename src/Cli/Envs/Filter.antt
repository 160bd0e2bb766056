-- ===== src/Cli/Envs/Filter.antt =====
-- What `filterElements` of cli/docker.go keeps, and how often.
use mathlib.Core.List.{reverse, reverse-append}
use envbox.Prelude.{
  ℕ, ◌+◌, ◌*◌, ◌≡◌, ◌≢◌, ◌⊎◌, refl, ap, ◌∙◌, Bool, true, false, ◌&&◌, List, [], ◌∷◌, ◌++◌, Bytes,
  codes, same, same→eq, same_self, split, ◌==◌, if◌then◌else◌, has_prefix, has_suffix, trim_suffix,
  trim_space, arith, append-nil, Bool-cases, inl, inr, any, Lacks, select, ℕ_discrete, split-append,
  split-ne-nil, split_single, length, length-append, ◌-◌, has_prefix-append, take_append_at,
}
use envbox.Cli.Envs.{keeps_tokens, keeps, filter_by, filter_elements}

-- How often `e` stands in a list.
abbrev pub count : Bytes → List Bytes → ℕ
count e [] = 0
count e (s ∷ ss) = (if same e s then 1 else 0) + count e ss

-- How many of the filters keep `e`.
abbrev pub keepers : Bytes → List Bytes → ℕ
keepers e [] = 0
keepers e (f ∷ fs) = (if keeps (trim_space f) e then 1 else 0) + keepers e fs

count-append : (e : Bytes) (xs ys : List Bytes) → count e (xs ++ ys) ≡ count e xs + count e ys
count-append e [] ys = omega arith
count-append e (x ∷ xs) ys = omega (arith, count-append e xs ys)

count-filter_by :
    (f e : Bytes) (ss : List Bytes)
    → count e (filter_by f ss) ≡ (if keeps f e then 1 else 0) * count e ss
unfolding filter_by
count-filter_by f e [] = ground arith
count-filter_by f e (s ∷ ss) = elim (Bool-cases (same e s)) [
  | inl eq ↦
      let e_s : e ≡ s = same→eq e s eq in ground (arith, count-filter_by f e ss, same_self e, eq)
  | inr ne ↦ ground (arith, count-filter_by f e ss, ne)
]

-- An entry of the environment is passed on once for each of its occurrences and each filter that
-- keeps it, and nothing else is passed on.
pub count-filter_elements :
    (e : Bytes) (ss fs : List Bytes) → count e (filter_elements ss fs) ≡ keepers e fs * count e ss
unfolding filter_elements
count-filter_elements e ss [] = omega arith
count-filter_elements e ss (f ∷ fs) =
    let k : ℕ = if keeps (trim_space f) e then 1 else 0 in
    grind (
      arith,
      count-append e (filter_by (trim_space f) ss) (filter_elements ss fs),
      count-filter_by (trim_space f) e ss,
      count-filter_elements e ss fs,
    )

-- A text without an equals sign, or its key and value.
abbrev KeyValue : Bytes → Type 0
KeyValue e = (k : Bytes) × (v : Bytes) × (e ≡ k ++ b'=' ∷ v) × Lacks b'=' k

cut_key : (e : Bytes) → Lacks b'=' e ⊎ KeyValue e
cut_key [] = inl tt
cut_key (c ∷ e) = elim (ℕ_discrete c b'=') [
  | yes eq ↦ inr ([], e, ap (λ d. d ∷ e) eq, tt)
  | no ne ↦ elim (cut_key e) [
    | inl lacks ↦ inl (ne, lacks)
    | inr (k, v, eq, lacks) ↦ inr (c ∷ k, v, ap (λ t. c ∷ t) eq, (ne, lacks))
  ]
]

any-Lacks : (b : ℕ) (e : Bytes) → Lacks b e → any e (λ c. c == b) ≡ false
any-Lacks b [] _ = refl
any-Lacks b (c ∷ e) (h, hs) = ground (arith, any-Lacks b e hs)

any-append : (b : ℕ) (k v : Bytes) → any (k ++ b ∷ v) (λ c. c == b) ≡ true
any-append b [] v = ground arith
any-append b (c ∷ k) v = ground (arith, any-append b k v)

has_prefix-key :
    (k v pre : Bytes) → Lacks b'=' pre → has_prefix (k ++ b'=' ∷ v) pre ≡ has_prefix k pre
unfolding has_prefix
has_prefix-key [] v [] h = refl
has_prefix-key [] v (p ∷ pre) (h, hs) = ground arith
has_prefix-key (c ∷ k) v [] h = refl
has_prefix-key (c ∷ k) v (p ∷ pre) (h, hs) = rw (has_prefix-key k v pre hs)

has_prefix-name :
    (k v name : Bytes)
    → Lacks b'=' k
    → Lacks b'=' name
    → has_prefix (k ++ b'=' ∷ v) (name ++ codes "=") ≡ same k name
unfolding has_prefix same
has_prefix-name [] [] [] _ _ = refl
has_prefix-name [] (d ∷ v) [] _ _ = refl
has_prefix-name [] v (n ∷ name) _ (h, hs) = ground arith
has_prefix-name (c ∷ k) v [] (h, hs) _ = ground arith
has_prefix-name (c ∷ k) v (n ∷ name) (_, hk) (_, hn) = rw (has_prefix-name k v name hk hn)

has_prefix-Lacks : (e name : Bytes) → Lacks b'=' e → has_prefix e (name ++ codes "=") ≡ false
unfolding has_prefix
has_prefix-Lacks [] [] _ = refl
has_prefix-Lacks [] (n ∷ name) _ = refl
has_prefix-Lacks (c ∷ e) [] (h, hs) = ground arith
has_prefix-Lacks (c ∷ e) (n ∷ name) (h, hs) = ground (arith, has_prefix-Lacks e name hs)

split_key :
    (f k v : Bytes)
    → Lacks b'=' k
    → keeps f (k ++ b'=' ∷ v)
      ≡ (if has_suffix f (codes "*") then has_prefix k (trim_suffix f (codes "*")) else same k f)
unfolding keeps
split_key f k v h = rw (split-append k b'=' v h) (second (split v b'=') (split-ne-nil v b'='))
  where
    second :
        (ps : List Bytes)
        → ps ≢ []
        → keeps_tokens f (k ∷ ps) ≡ (
            if has_suffix f (codes "*") then has_prefix k (trim_suffix f (codes "*")) else same k f)
    second [] ne = absurd (ne refl)
    second (p ∷ ps) ne = refl

keeps-Lacks : (f e : Bytes) → Lacks b'=' e → keeps f e ≡ false
unfolding keeps
keeps-Lacks f e h = rw (split_single e b'=' h)

has_suffix_star : (pre : Bytes) → has_suffix (pre ++ codes "*") (codes "*") ≡ true
unfolding has_suffix
has_suffix_star pre =
    ap (λ r. has_prefix r (codes "*")) (reverse-append pre (codes "*"))
    ∙ has_prefix-append (codes "*") (reverse pre)

trim_suffix_star : (pre : Bytes) → trim_suffix (pre ++ codes "*") (codes "*") ≡ pre
unfolding trim_suffix
trim_suffix_star pre =
    let k : length (pre ++ codes "*") - 1 ≡ length pre =
      omega (arith, length-append pre (codes "*")) in
    rw (has_suffix_star pre) (rw k (take_append_at (length pre) pre (codes "*") refl))

-- A wildcard keeps the entries with an equals sign that begin with what stands before the star.
keeps_star :
    (pre e : Bytes)
    → Lacks b'=' pre
    → keeps (pre ++ codes "*") e ≡ any e (λ c. c == b'=') && has_prefix e pre
keeps_star pre e h = elim (cut_key e) [
  | inl lacks ↦ rw (keeps-Lacks (pre ++ codes "*") e lacks, any-Lacks b'=' e lacks)
  | inr kv ↦ keeps_pair kv.0 kv.1 kv.2 kv.3
]
  where
    keeps_pair :
        (k v : Bytes)
        → e ≡ k ++ b'=' ∷ v
        → Lacks b'=' k
        → keeps (pre ++ codes "*") e ≡ any e (λ c. c == b'=') && has_prefix e pre
    keeps_pair k v eq lacks = rw eq (
        rw (
          split_key (pre ++ codes "*") k v lacks,
          has_suffix_star,
          trim_suffix_star,
          any-append,
          has_prefix-key k v pre h,
        ))

-- A name keeps the entries that begin with it and an equals sign.
keeps_name :
    (name e : Bytes)
    → Lacks b'=' name
    → has_suffix name (codes "*") ≡ false
    → keeps name e ≡ has_prefix e (name ++ codes "=")
keeps_name name e h plain = elim (cut_key e) [
  | inl lacks ↦ rw (keeps-Lacks name e lacks, has_prefix-Lacks e name lacks)
  | inr kv ↦ keeps_pair kv.0 kv.1 kv.2 kv.3
]
  where
    keeps_pair :
        (k v : Bytes)
        → e ≡ k ++ b'=' ∷ v
        → Lacks b'=' k
        → keeps name e ≡ has_prefix e (name ++ codes "=")
    keeps_pair k v eq lacks =
        rw eq (rw (split_key name k v lacks, plain, has_prefix-name k v name lacks h))

filter_by-select :
    (f : Bytes) (p : Bytes → Bool) (ss : List Bytes)
    → ((e : Bytes) → keeps f e ≡ p e)
    → filter_by f ss ≡ select p ss
unfolding filter_by
filter_by-select f p [] h = refl
filter_by-select f p (s ∷ ss) h = ground (arith, h s, filter_by-select f p ss h)

-- A filter that is a prefix and a star once trimmed keeps, in order, the entries with an equals sign
-- that begin with the prefix, if the prefix holds no equals sign.
pub filter_elements_star :
    (f pre : Bytes) (ss : List Bytes)
    → trim_space f ≡ pre ++ codes "*"
    → Lacks b'=' pre
    → filter_elements ss (f ∷ []) ≡ select (λ e. any e (λ c. c == b'=') && has_prefix e pre) ss
unfolding filter_elements
filter_elements_star f pre ss trimmed h =
    rw (trimmed, append-nil) (filter_by-select (pre ++ codes "*") _ ss (λ e. keeps_star pre e h))

-- A filter that is a name once trimmed keeps, in order, the entries that begin with the name and an
-- equals sign, if the name holds none itself and does not end in a star.
pub filter_elements_name :
    (f name : Bytes) (ss : List Bytes)
    → trim_space f ≡ name
    → Lacks b'=' name
    → has_suffix name (codes "*") ≡ false
    → filter_elements ss (f ∷ []) ≡ select (λ e. has_prefix e (name ++ codes "=")) ss
unfolding filter_elements
filter_elements_name f name ss trimmed h plain =
    rw (trimmed, append-nil) (filter_by-select name _ ss (λ e. keeps_name name e h plain))
