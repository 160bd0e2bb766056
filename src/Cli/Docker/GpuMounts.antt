-- ===== src/Cli/Docker/GpuMounts.antt =====
-- The mounts that `runDockerCVM` of cli/docker.go adds for GPUs.
use envbox.Prelude.{
  ◌≡◌, refl, sym, ap, ◌∙◌, true, false, ◌||◌, List, [], ◌∷◌, ◌++◌, append_assoc, append-nil, Bytes,
  codes, same, same→eq, any, member, member-append, Distinct, Distinct-snoc, Bool-cases, inl, inr,
  arith,
}
use mathlib.Core.Path.{subst}
use envbox.Xunix.Gpu.{MountPoint}
use envbox.Xunix.Mount.{Mount}
use envbox.Cli.Docker.{mountpoints, remap, add_gpu_mounts}

mountpoints-append : (a b : List Mount) → mountpoints (a ++ b) ≡ mountpoints a ++ mountpoints b
mountpoints-append [] b = refl
mountpoints-append (m ∷ a) b = ap (λ l. m.mountpoint ∷ l) (mountpoints-append a b)

member-mountpoints-append :
    (n : Bytes) (a b : List Mount)
    → member n (mountpoints (a ++ b)) ≡ member n (mountpoints a) || member n (mountpoints b)
member-mountpoints-append n a b =
    ap (member n) (mountpoints-append a b) ∙ member-append n (mountpoints a) (mountpoints b)

module _ (host inner : Bytes) where
  abbrev mount_of : MountPoint → Mount
  mount_of b = record {
    source = b.path;
    mountpoint = remap host inner b.path;
    read_only = any b.opts (same (codes "ro"));
  }

  -- The paths of binds in the inner container.
  abbrev pub remapped : List MountPoint → List Bytes
  remapped [] = []
  remapped (b ∷ bs) = remap host inner b.path ∷ remapped bs

  add_none : (mounts : List Mount) → add_gpu_mounts host inner [] mounts ≡ mounts ++ []
  unfolding add_gpu_mounts
  add_none mounts = sym (append-nil mounts)

  module _ (b : MountPoint) (bs : List MountPoint) (mounts : List Mount) where
    add_there :
        member (remap host inner b.path) (mountpoints mounts) ≡ true
        → add_gpu_mounts host inner (b ∷ bs) mounts ≡ add_gpu_mounts host inner bs mounts
    unfolding add_gpu_mounts
    add_there h = rw h refl

    add_fresh :
        member (remap host inner b.path) (mountpoints mounts) ≡ false
        → add_gpu_mounts host inner (b ∷ bs) mounts
          ≡ add_gpu_mounts host inner bs (mounts ++ mount_of b ∷ [])
    unfolding add_gpu_mounts
    add_fresh h = rw h refl

    mount-Distinct :
        member (remap host inner b.path) (mountpoints mounts) ≡ false
        → Distinct (mountpoints mounts)
        → Distinct (mountpoints (mounts ++ mount_of b ∷ []))
    mount-Distinct h d =
        subst Distinct (sym (mountpoints-append mounts (mount_of b ∷ [])))
          (Distinct-snoc (mountpoints mounts) (remap host inner b.path) d h)

-- If no two mounts have the same path in the inner container, then the mounts with those for GPUs do
-- not either. The mounts before stay, in front, and every GPU file has a mount at its remapped path.
pub add_gpu_mounts-Distinct :
    (host inner : Bytes) (binds : List MountPoint) (mounts : List Mount)
    → Distinct (mountpoints mounts)
    → (new : List Mount) × (add_gpu_mounts host inner binds mounts ≡ mounts ++ new)
      × Distinct (mountpoints (mounts ++ new))
      × ((n : Bytes)
          → member n (remapped host inner binds) ≡ true
          → member n (mountpoints (mounts ++ new)) ≡ true)
add_gpu_mounts-Distinct host inner [] mounts d = (
  [],
  add_none host inner mounts,
  subst (λ l. Distinct (mountpoints l)) (sym (append-nil mounts)) d,
  λ n h. absurd (cc h),
)
add_gpu_mounts-Distinct host inner (b ∷ bs) mounts d =
    elim (Bool-cases (member (remap host inner b.path) (mountpoints mounts))) [
      | inl there ↦
          let (new, e, distinct, all) = add_gpu_mounts-Distinct host inner bs mounts d in
          (
            new,
            add_there host inner b bs mounts there ∙ e,
            distinct,
            λ n h. elim (Bool-cases (same n (remap host inner b.path))) [
              | inl t ↦
                  let here : member n (mountpoints mounts) ≡ true =
                    subst (λ m. member m (mountpoints mounts) ≡ true) (sym (same→eq n _ t)) there in
                  ground (arith, member-mountpoints-append n mounts new)
              | inr f ↦ all n (ground arith)
            ],
          )
      | inr fresh ↦
          let m = mount_of host inner b in
          let (new, e, distinct, all) =
            add_gpu_mounts-Distinct host inner bs (mounts ++ m ∷ [])
              (mount-Distinct host inner b bs mounts fresh d) in
          let shift : (mounts ++ m ∷ []) ++ new ≡ mounts ++ (m ∷ new) =
            append_assoc mounts (m ∷ []) new in
          (
            m ∷ new,
            add_fresh host inner b bs mounts fresh ∙ e ∙ shift,
            subst (λ l. Distinct (mountpoints l)) shift distinct,
            λ n h. elim (Bool-cases (same n (remap host inner b.path))) [
              | inl t ↦ ground (arith, member-mountpoints-append n mounts (m ∷ new))
              | inr f ↦ subst (λ l. member n (mountpoints l) ≡ true) shift (all n (ground arith))
            ],
          )
    ]
