-- ===== src/Cli/Envs/Sorted.antt =====
-- The names that `defaultContainerEnvs` of cli/docker.go tidies and sorts: which they are, and their order.
use envbox.Prelude.{
  member, Distinct, member-append, same_comm, Distinct-snoc, ◌≡◌, refl, ap, ◌∙◌, true, false, ◌&&◌,
  ◌||◌, not, List, [], ◌∷◌, ◌++◌, Bytes, same, same→eq, trim_space, arith, Bool-cases, inl, inr,
  any,
}
use envbox.Cli.Envs.{tidy_names, precedes, insert_name, sort_strings}

-- Each name comes before the next.
abbrev pub IsSorted : List Bytes → Type 0
IsSorted [] = Unit
IsSorted (x ∷ []) = Unit
IsSorted (x ∷ y ∷ l) = (precedes x y ≡ true) × IsSorted (y ∷ l)

-- A name can be replaced by an equal one.
member_congr : (n m : Bytes) (xs : List Bytes) → same n m ≡ true → member n xs ≡ member m xs
member_congr n m xs h = ap (λ k. member k xs) (same→eq n m h)

pub same_congr : (n m k : Bytes) → same n m ≡ true → same n k ≡ same m k
same_congr n m k h = ap (λ t. same t k) (same→eq n m h)

-- The tidy names are those of `tidy` and the trimmed ones that are not empty.
pub member-tidy_names :
    (n : Bytes) (ss tidy : List Bytes)
    → member n (tidy_names ss tidy)
      ≡ member n tidy || (not (same n []) && any ss (λ s. same n (trim_space s)))
unfolding tidy_names
member-tidy_names n [] tidy = ground arith
member-tidy_names n (s ∷ ss) tidy =
    let m = trim_space s in
    elim (Bool-cases (same m [] || member m tidy)) [
      | inl skip ↦
          rw skip
            (ground (arith, member-tidy_names n ss tidy, same_congr n m [], member_congr n m tidy))
      | inr add ↦ rw add (
          ground (
            arith,
            member-tidy_names n ss (tidy ++ m ∷ []),
            member-append n tidy (m ∷ []),
            same_congr n m [],
          ))
    ]

pub Distinct-tidy_names : (ss tidy : List Bytes) → Distinct tidy → Distinct (tidy_names ss tidy)
unfolding tidy_names
Distinct-tidy_names [] tidy d = d
Distinct-tidy_names (s ∷ ss) tidy d =
    let n = trim_space s in
    elim (Bool-cases (same n [] || member n tidy)) [
      | inl skip ↦ rw skip (Distinct-tidy_names ss tidy d)
      | inr add ↦
          rw add (Distinct-tidy_names ss (tidy ++ n ∷ []) (Distinct-snoc tidy n d (ground arith)))
    ]

member-insert_name :
    (n s : Bytes) (ts : List Bytes) → member n (insert_name s ts) ≡ same n s || member n ts
unfolding insert_name
member-insert_name n s [] = refl
member-insert_name n s (t ∷ ts) = ground (arith, member-insert_name n s ts)

pub member-sort_strings : (n : Bytes) (ss : List Bytes) → member n (sort_strings ss) ≡ member n ss
unfolding sort_strings
member-sort_strings n [] = refl
member-sort_strings n (s ∷ ss) =
    member-insert_name n s (sort_strings ss) ∙ ap (λ b. same n s || b) (member-sort_strings n ss)

Distinct-insert_name :
    (s : Bytes) (ts : List Bytes) → Distinct ts → member s ts ≡ false → Distinct (insert_name s ts)
unfolding insert_name
Distinct-insert_name s [] d h = (refl, tt)
Distinct-insert_name s (t ∷ ts) (ht, d) h = elim (Bool-cases (precedes s t)) [
  | inl before ↦ rw before (h, (ht, d))
  | inr after ↦ rw after (
    ground (arith, member-insert_name t s ts, same_comm t s),
    Distinct-insert_name s ts d (ground arith),
  )
]

pub Distinct-sort_strings : (ss : List Bytes) → Distinct ss → Distinct (sort_strings ss)
unfolding sort_strings
Distinct-sort_strings [] d = tt
Distinct-sort_strings (s ∷ ss) (h, d) =
    Distinct-insert_name s (sort_strings ss) (Distinct-sort_strings ss d)
      (member-sort_strings s ss ∙ h)

precedes_total : (s t : Bytes) → precedes s t ≡ false → precedes t s ≡ true
unfolding precedes
precedes_total [] t h = cc
precedes_total (c ∷ s) [] h = refl
precedes_total (c ∷ s) (d ∷ t) h = ground (arith, precedes_total s t)

insert_name-IsSorted : (s : Bytes) (ts : List Bytes) → IsSorted ts → IsSorted (insert_name s ts)
unfolding insert_name
insert_name-IsSorted s [] _ = tt
insert_name-IsSorted s (t ∷ []) _ = elim (Bool-cases (precedes s t)) [
  | inl before ↦ rw before (before, tt)
  | inr after ↦ rw after (precedes_total s t after, tt)
]
insert_name-IsSorted s (t ∷ u ∷ ts) (h, srt) =
    let rec = insert_name-IsSorted s (u ∷ ts) srt in
    elim (Bool-cases (precedes s t)) [
      | inl before ↦ rw before (before, (h, srt))
      | inr after ↦ elim (Bool-cases (precedes s u)) [
        | inl between ↦ rw (after, between) (precedes_total s t after, (between, srt))
        | inr later ↦ rw (after, later) (h, rw later at rec)
      ]
    ]

pub sort_strings-IsSorted : (ss : List Bytes) → IsSorted (sort_strings ss)
unfolding sort_strings
sort_strings-IsSorted [] = tt
sort_strings-IsSorted (s ∷ ss) = insert_name-IsSorted s (sort_strings ss) (sort_strings-IsSorted ss)
