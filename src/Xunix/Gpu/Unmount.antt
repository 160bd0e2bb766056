-- ===== src/Xunix/Gpu/Unmount.antt =====
-- `TryUnmountProcGPUDrivers` of xunix/gpu.go: which paths it unmounts, and in what order.
use mathlib.Core.Path.{subst}
use mathlib.Core.List.{Permᴰ}
use envbox.Prelude.Sort.{IsWeakOrder, Ordered, IsSort, select-Perm}
use envbox.Prelude.{
  ◌≤◌, ◌≡◌, refl, sym, ap, ◌∙◌, Bool, true, false, ◌&&◌, List, [], ◌∷◌, ◌++◌, append_assoc,
  append-nil, Option, none, some, Option-cases, Bytes, codes, has_prefix, Error, ok, All, select,
  select-All, select_keep, select_skip, inl, inr, Bool-cases, arith,
}
use envbox.Xunix.Gpu.{
  MountPoint, gpu_mount, slashes, deeper, paths, unmount_each, try_unmount_proc_gpu_drivers,
}

-- A mount of a GPU driver below /proc.
abbrev pub is_proc_gpu : MountPoint → Bool
is_proc_gpu m = has_prefix m.path (codes "/proc/") && gpu_mount m.path

-- Paths with more slashes stand first.
abbrev pub IsDeepFirst : List MountPoint → Type 0
IsDeepFirst [] = Unit
IsDeepFirst (m ∷ ms) = All (λ n. slashes n.path ≤ slashes m.path) ms × IsDeepFirst ms

-- The mounts whose unmounting succeeds, one behind the other.
abbrev pub gone :
    (List Bytes → Bytes → Option Error) → List MountPoint → List Bytes → List MountPoint
gone unmount [] tried = []
gone unmount (m ∷ ms) tried =
    let rest = gone unmount ms (tried ++ m.path ∷ []) in
    elim (unmount tried m.path) [ some e ↦ rest | none ↦ m ∷ rest ]

module _ (unmount : List Bytes → Bytes → Option Error) where
  module _ (m : MountPoint) (ms : List MountPoint) (tried : List Bytes) where
    unmount_skip :
        is_proc_gpu m ≡ false → unmount_each unmount (m ∷ ms) tried ≡ unmount_each unmount ms tried
    unfolding unmount_each
    unmount_skip other = rw (unmount_each, other) refl

    unmount_fine :
        is_proc_gpu m ≡ true
        → unmount tried m.path ≡ none
        → unmount_each unmount (m ∷ ms) tried ≡ (
          m ∷ (unmount_each unmount ms (tried ++ m.path ∷ [])).0,
          (unmount_each unmount ms (tried ++ m.path ∷ [])).1,
        )
    unfolding unmount_each
    unmount_fine driver fine = rw (unmount_each, driver, fine) refl

    unmount_failed :
        (e : Error)
        → is_proc_gpu m ≡ true
        → unmount tried m.path ≡ some e
        → unmount_each unmount (m ∷ ms) tried ≡ unmount_each unmount ms (tried ++ m.path ∷ [])
    unfolding unmount_each
    unmount_failed e driver failed = rw (unmount_each, driver, failed) refl

    gone_fine :
        unmount tried m.path ≡ none
        → gone unmount (m ∷ ms) tried ≡ m ∷ gone unmount ms (tried ++ m.path ∷ [])
    gone_fine fine = rw (gone, fine) refl

    gone_failed :
        (e : Error)
        → unmount tried m.path ≡ some e
        → gone unmount (m ∷ ms) tried ≡ gone unmount ms (tried ++ m.path ∷ [])
    gone_failed e failed = rw (gone, failed) refl

  unmount_each_lem :
      (ms : List MountPoint) (tried : List Bytes)
      → ((unmount_each unmount ms tried).1 ≡ tried ++ paths (select is_proc_gpu ms))
        × ((unmount_each unmount ms tried).0 ≡ gone unmount (select is_proc_gpu ms) tried)
  unmount_each_lem [] tried =
      (unfold unmount_each in sym (append-nil tried), unfold unmount_each in refl)
  unmount_each_lem (m ∷ ms) tried = elim (Bool-cases (is_proc_gpu m)) [
    | inr other ↦
        rw (unmount_skip m ms tried other, select_skip is_proc_gpu m ms other)
          (unmount_each_lem ms tried)
    | inl driver ↦
        let (all_tried, all_gone) = unmount_each_lem ms (tried ++ m.path ∷ []) in
        let next = all_tried ∙ append_assoc tried (m.path ∷ []) (paths (select is_proc_gpu ms)) in
        let keep = select_keep is_proc_gpu m ms driver in
        elim (Option-cases (unmount tried m.path)) [
          | inl fine ↦
              rw (unmount_fine m ms tried driver fine, keep)
                (
                  next,
                  ap (λ l. m ∷ l) all_gone ∙ sym (gone_fine m (select is_proc_gpu ms) tried fine),
                )
          | inr (e, failed) ↦
              rw (unmount_failed m ms tried e driver failed, keep)
                (next, all_gone ∙ sym (gone_failed m (select is_proc_gpu ms) tried e failed))
        ]
  ]

deeper-IsWeakOrder : IsWeakOrder deeper
unfolding deeper
deeper-IsWeakOrder = record { asym = λ a b h. ground arith; trans = λ a b c h k. ground arith }

not_deeper-All :
    (m : MountPoint) (ms : List MountPoint)
    → All (λ n. deeper n m ≡ false) ms
    → All (λ n. slashes n.path ≤ slashes m.path) ms
unfolding deeper
not_deeper-All m [] all = tt
not_deeper-All m (n ∷ ms) (h, all) = (ground arith, not_deeper-All m ms all)

Ordered-IsDeepFirst : (ms : List MountPoint) → Ordered deeper ms → IsDeepFirst ms
Ordered-IsDeepFirst [] ord = tt
Ordered-IsDeepFirst (m ∷ ms) (h, ord) = (not_deeper-All m ms h, Ordered-IsDeepFirst ms ord)

select-IsDeepFirst :
    (p : MountPoint → Bool) (ms : List MountPoint) → IsDeepFirst ms → IsDeepFirst (select p ms)
select-IsDeepFirst p [] a = tt
select-IsDeepFirst p (m ∷ ms) (h, a) = elim (Bool-cases (p m)) [
  | inl t ↦
      subst IsDeepFirst (sym (select_keep p m ms t))
        (select-All p (λ n. slashes n.path ≤ slashes m.path) ms h, select-IsDeepFirst p ms a)
  | inr f ↦ subst IsDeepFirst (sym (select_skip p m ms f)) (select-IsDeepFirst p ms a)
]

-- Over any `sort.Slice` that sorts, where the mounts can be listed, `TryUnmountProcGPUDrivers` tries to unmount
-- exactly the GPU mounts below /proc, each as often as it is listed and a path with more slashes always before
-- one with fewer, goes on behind a failure, and returns the mounts that are gone.
pub try_unmount_proc_gpu_drivers_lem :
    (sort : (MountPoint → MountPoint → Bool) → List MountPoint → List MountPoint)
    (unmount : List Bytes → Bytes → Option Error) (mounts : List MountPoint)
    → IsSort sort
    → (drivers : List MountPoint) × (try_unmount_proc_gpu_drivers sort unmount (ok mounts)
        ≡ (ok (gone unmount drivers []), paths drivers))
      × Permᴰ drivers (select is_proc_gpu mounts)
      × IsDeepFirst drivers
unfolding try_unmount_proc_gpu_drivers
try_unmount_proc_gpu_drivers_lem sort unmount mounts sorts =
    let sorted = sort deeper mounts in
    let (tried, drivers) = unmount_each_lem unmount sorted [] in
    let deep = Ordered-IsDeepFirst sorted (sorts.ordered deeper mounts deeper-IsWeakOrder) in
    (
      select is_proc_gpu sorted,
      rw (tried, drivers) refl,
      select-Perm is_proc_gpu sorted mounts (sorts.perm deeper mounts),
      select-IsDeepFirst is_proc_gpu sorted deep,
    )
