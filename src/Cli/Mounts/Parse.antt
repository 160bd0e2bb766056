-- ===== src/Cli/Mounts/Parse.antt =====
-- `parseMounts` of cli/docker.go: what it accepts, and the mounts that Docker's binds spell.
use mathlib.Core.Path.{subst}
use envbox.Prelude.{
  ℕ, ◌≤◌, ◌≡◌, ◌≢◌, ◌⊎◌, refl, sym, ap, ◌∙◌, Bool, true, false, List, [], ◌∷◌, ◌++◌, append_assoc,
  append-nil, Bytes, codes, same, split, join, ok, err, All, Lacks, arith, Bool-cases, inl, inr,
  length, split-join, split_single, split-append, dec_le, cons-ne-nil, same_self, All-append,
}
use envbox.Xunix.Mount.{Mount}
use envbox.Dockerutil.Container.{bind_mount, generate_bind_mounts}
use envbox.Cli.Mounts.{malformed, parse_mount, parse_entries, parse_mounts}

-- An entry has two or three fields.
abbrev pub IsEntry : Bytes → Type 0
IsEntry entry = (2 ≤ length (split entry b':')) × (length (split entry b':') ≤ 3)

-- The mount of an entry that is one.
abbrev pub mount_of : List Bytes → Mount
mount_of [] = record { source = []; mountpoint = []; read_only = false }
mount_of (src ∷ []) = record { source = src; mountpoint = []; read_only = false }
mount_of (src ∷ dst ∷ []) = record { source = src; mountpoint = dst; read_only = false }
mount_of (src ∷ dst ∷ mode ∷ _) = record {
  source = src;
  mountpoint = dst;
  read_only = same mode (codes "ro");
}

-- The mounts of entries, in order.
abbrev pub mounts_of : List Bytes → List Mount
mounts_of [] = []
mounts_of (entry ∷ entries) = mount_of (split entry b':') ∷ mounts_of entries

parse_mount_ok :
    (whole : Bytes) (toks : List Bytes)
    → 2 ≤ length toks
    → length toks ≤ 3
    → parse_mount whole toks ≡ ok (mount_of toks)
unfolding parse_mount
parse_mount_ok whole [] lo hi = absurd (omega arith)
parse_mount_ok whole (a ∷ []) lo hi = absurd (omega arith)
parse_mount_ok whole (a ∷ b ∷ []) lo hi = refl
parse_mount_ok whole (a ∷ b ∷ c ∷ []) lo hi = refl
parse_mount_ok whole (a ∷ b ∷ c ∷ d ∷ r) lo hi = absurd (omega arith)

parse_mount_err :
    (whole : Bytes) (toks : List Bytes)
    → ¬ ((2 ≤ length toks) × (length toks ≤ 3))
    → parse_mount whole toks ≡ err (malformed whole)
unfolding parse_mount
parse_mount_err whole [] h = refl
parse_mount_err whole (a ∷ []) h = refl
parse_mount_err whole (a ∷ b ∷ []) h = absurd (h (omega arith))
parse_mount_err whole (a ∷ b ∷ c ∷ []) h = absurd (h (omega arith))
parse_mount_err whole (a ∷ b ∷ c ∷ d ∷ r) h = refl

IsEntry-dec : (entry : Bytes) → Dec (IsEntry entry)
IsEntry-dec entry = elim (dec_le 2 (length (split entry b':'))) [
  | no few ↦ no (λ h. few h.0)
  | yes lo ↦ elim (dec_le (length (split entry b':')) 3) [
    | no many ↦ no (λ h. many h.1)
    | yes hi ↦ yes (lo, hi)
  ]
]

-- The two ways in which the loop ends, from the mounts `done`.
abbrev Parses : Bytes → List Bytes → List Mount → Type 0
Parses whole entries done =
    (All IsEntry entries × (parse_entries whole entries done ≡ ok (done ++ mounts_of entries)))
    ⊎ ((¬ All IsEntry entries) × (parse_entries whole entries done ≡ err (malformed whole)))

parse_entries_lem :
    (whole : Bytes) (entries : List Bytes) (done : List Mount) → Parses whole entries done
unfolding parse_entries
parse_entries_lem whole [] done = inl (tt, ap ok (sym (append-nil done)))
parse_entries_lem whole (e ∷ es) done =
    let m : Mount = mount_of (split e b':') in
    let rest : Parses whole es (done ++ m ∷ []) = parse_entries_lem whole es (done ++ m ∷ []) in
    elim (IsEntry-dec e) [
      | no bad ↦ inr ((λ h. bad h.0), rw (parse_mount_err whole (split e b':') bad, parse_entries))
      | yes good ↦ elim rest [
        | inl (hs, r) ↦ inl (
          (good, hs),
          rw (parse_mount_ok whole (split e b':') good.0 good.1, parse_entries)
              (rw r (ap ok (append_assoc done (m ∷ []) (mounts_of es)))),
        )
        | inr (bad, r) ↦ inr (
          (λ h. bad h.1),
          rw (parse_mount_ok whole (split e b':') good.0 good.1, parse_entries) r,
        )
      ]
    ]

-- A text that is not empty gives the mounts of its entries, in order, exactly if each entry has two
-- or three fields, and the error that quotes the whole text otherwise.
pub parse_mounts_lem :
    (s : Bytes)
    → s ≢ []
    → (All IsEntry (split s b',') × (parse_mounts s ≡ ok (mounts_of (split s b','))))
      ⊎ ((¬ All IsEntry (split s b',')) × (parse_mounts s ≡ err (malformed s)))
unfolding parse_mounts
parse_mounts_lem [] h = absurd (h refl)
parse_mounts_lem (c ∷ s) h = parse_entries_lem (c ∷ s) (split (c ∷ s) b',') []

-- A mount that its bind can spell: no field holds a colon or a comma.
pub record IsPlain (m : Mount) : Type 0 where
  pub source_colon : Lacks b':' m.source
  pub source_comma : Lacks b',' m.source
  pub mountpoint_colon : Lacks b':' m.mountpoint
  pub mountpoint_comma : Lacks b',' m.mountpoint

abbrev mode_of : Bool → List Bytes
mode_of true = codes "ro" ∷ []
mode_of false = []

split-bind_mount :
    (m : Mount)
    → IsPlain m
    → split (bind_mount m) b':' ≡ m.source ∷ m.mountpoint ∷ mode_of m.read_only
unfolding bind_mount
split-bind_mount m v = elim (Bool-cases m.read_only) [
  | inl y ↦ rw y (
      ap (λ t. split t b':') (append_assoc m.source (b':' ∷ m.mountpoint) (codes ":ro"))
      ∙ split-append m.source b':' (m.mountpoint ++ codes ":ro") v.source_colon
      ∙ ap (λ l. m.source ∷ l)
          (split-append m.mountpoint b':' (codes "ro") v.mountpoint_colon
            ∙ ap (λ l. m.mountpoint ∷ l) (split_single (codes "ro") b':' (ground arith))))
  | inr n ↦ rw n (
      split-append m.source b':' m.mountpoint v.source_colon
      ∙ ap (λ l. m.source ∷ l) (split_single m.mountpoint b':' v.mountpoint_colon))
]

bind_mount-Lacks : (m : Mount) → IsPlain m → Lacks b',' (bind_mount m)
unfolding bind_mount
bind_mount-Lacks m v =
    let base : Lacks b',' (m.source ++ b':' ∷ m.mountpoint) =
      All-append (λ c. c ≢ b',') m.source (b':' ∷ m.mountpoint) v.source_comma
        (ground arith, v.mountpoint_comma) in
    elim (Bool-cases m.read_only) [
      | inl y ↦ rw y (
          All-append (λ c. c ≢ b',') (m.source ++ b':' ∷ m.mountpoint) (codes ":ro") base
            (ground arith))
      | inr n ↦ rw n base
    ]

mount_of-mode :
    (src dst : Bytes) (mode : Bool)
    → mount_of (src ∷ dst ∷ mode_of mode)
      ≡ record { source = src; mountpoint = dst; read_only = mode }
mount_of-mode src dst true = rw same_self
mount_of-mode src dst false = refl

mode_of-IsEntry :
    (src dst : Bytes) (mode : Bool)
    → (2 ≤ length (src ∷ dst ∷ mode_of mode)) × (length (src ∷ dst ∷ mode_of mode) ≤ 3)
mode_of-IsEntry src dst true = omega arith
mode_of-IsEntry src dst false = omega arith

generate-Lacks : (ms : List Mount) → All IsPlain ms → All (Lacks b',') (generate_bind_mounts ms)
unfolding generate_bind_mounts
generate-Lacks [] _ = tt
generate-Lacks (m ∷ ms) (v, vs) = (bind_mount-Lacks m v, generate-Lacks ms vs)

generate-IsEntry : (ms : List Mount) → All IsPlain ms → All IsEntry (generate_bind_mounts ms)
unfolding generate_bind_mounts
generate-IsEntry [] _ = tt
generate-IsEntry (m ∷ ms) (v, vs) = (
  rw (split-bind_mount m v) (mode_of-IsEntry m.source m.mountpoint m.read_only),
  generate-IsEntry ms vs,
)

mounts_of-generate : (ms : List Mount) → All IsPlain ms → mounts_of (generate_bind_mounts ms) ≡ ms
unfolding generate_bind_mounts
mounts_of-generate [] _ = refl
mounts_of-generate (m ∷ ms) (v, vs) =
    rw (split-bind_mount m v, mount_of-mode, mounts_of-generate ms vs)

append-ne-nil : (s : Bytes) (c : ℕ) (t : Bytes) → s ++ c ∷ t ≢ []
append-ne-nil [] c t = cons-ne-nil c t
append-ne-nil (d ∷ s) c t = cons-ne-nil d (s ++ c ∷ t)

bind_mount-ne-nil : (m : Mount) → bind_mount m ≢ []
unfolding bind_mount
bind_mount-ne-nil m = elim (Bool-cases m.read_only) [
  | inl y ↦ rw y (
      subst (λ s. s ≢ []) (sym (append_assoc m.source (b':' ∷ m.mountpoint) (codes ":ro")))
        (append-ne-nil m.source b':' (m.mountpoint ++ codes ":ro")))
  | inr n ↦ rw n (append-ne-nil m.source b':' m.mountpoint)
]

join-generate-ne-nil :
    (m : Mount) (ms : List Mount) → join (generate_bind_mounts (m ∷ ms)) b',' ≢ []
unfolding generate_bind_mounts join
join-generate-ne-nil m [] = bind_mount-ne-nil m
join-generate-ne-nil m (n ∷ ms) = append-ne-nil (bind_mount m) b',' _

generate-ne-nil : (m : Mount) (ms : List Mount) → generate_bind_mounts (m ∷ ms) ≢ []
unfolding generate_bind_mounts
generate-ne-nil m ms = cons-ne-nil _ _

-- The binds that Docker is given, joined by commas, are a value of the mounts flag that is read back
-- as the same mounts, if there is one and no path holds a colon or a comma.
pub parse_mounts-generate_bind_mounts :
    (ms : List Mount)
    → ms ≢ []
    → All IsPlain ms
    → parse_mounts (join (generate_bind_mounts ms) b',') ≡ ok ms
parse_mounts-generate_bind_mounts [] ne vs = absurd (ne refl)
parse_mounts-generate_bind_mounts (m ∷ ms) ne vs =
    let binds = generate_bind_mounts (m ∷ ms) in
    let parts : split (join binds b',') b',' ≡ binds =
      split-join binds b',' (generate-ne-nil m ms) (generate-Lacks (m ∷ ms) vs) in
    elim (parse_mounts_lem (join binds b',') (join-generate-ne-nil m ms)) [
      | inl (_, r) ↦ r ∙ ap ok (ap mounts_of parts ∙ mounts_of-generate (m ∷ ms) vs)
      | inr (bad, _) ↦ absurd (bad (rw parts (generate-IsEntry (m ∷ ms) vs)))
    ]
