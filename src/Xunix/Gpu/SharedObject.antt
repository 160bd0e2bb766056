-- ===== src/Xunix/Gpu/SharedObject.antt =====
-- The names that `sharedObjectRegex` of xunix/gpu.go accepts.
use envbox.Prelude.{
  ℕ, ◌≤◌, ◌≡◌, ◌≢◌, ◌⊎◌, ◌↔◌, refl, ap, true, ◌&&◌, [], ◌∷◌, ◌++◌, Bytes, codes, has_prefix,
  has_prefix_split, has_prefix-append, drop, All, arith, inl, inr, Bool-cases, cons-ne-nil,
}
use envbox.Xunix.Gpu.{shared_object, version, digits_and_dots}

abbrev pub IsVersionByte : ℕ → Type 0
IsVersionByte c = ((b'0' ≤ c) × (c ≤ b'9')) ⊎ (c ≡ b'.')

-- Nothing, or a dot and one or more digits and dots.
abbrev pub IsVersion : Bytes → Type 0
IsVersion t = (t ≡ []) ⊎ ((s : Bytes) × (t ≡ b'.' ∷ s) × (s ≢ []) × All IsVersionByte s)

-- A text with `.so` and a version at its end.
abbrev pub IsSharedObject : Bytes → Type 0
IsSharedObject s = (stem : Bytes) × (t : Bytes) × (s ≡ stem ++ (codes ".so" ++ t)) × IsVersion t

digits_and_dots_sound : (s : Bytes) → digits_and_dots s ≡ true → All IsVersionByte s
unfolding digits_and_dots
digits_and_dots_sound [] h = tt
digits_and_dots_sound (c ∷ s) h = (ground arith, digits_and_dots_sound s (ground arith))

digits_and_dots_complete : (s : Bytes) → All IsVersionByte s → digits_and_dots s ≡ true
unfolding digits_and_dots
digits_and_dots_complete [] a = refl
digits_and_dots_complete (c ∷ s) (h, a) = ground (arith, digits_and_dots_complete s a)

version_sound : (t : Bytes) → version t ≡ true → IsVersion t
unfolding version
version_sound [] h = inl refl
version_sound (d ∷ []) h = cc
version_sound (d ∷ c ∷ s) h =
    let e : d ≡ b'.' = ground arith in
    inr
      (c ∷ s, ap (λ x. x ∷ c ∷ s) e, cons-ne-nil c s, digits_and_dots_sound (c ∷ s) (ground arith))

version_complete : (t : Bytes) → IsVersion t → version t ≡ true
version_complete t (inl e) = rw e (unfold version in refl)
version_complete t (inr ([], e, ne, a)) = absurd (ne refl)
version_complete t (inr (c ∷ s, e, ne, a)) =
    rw e (unfold version in digits_and_dots_complete (c ∷ s) a)

shared_object_sound : (s : Bytes) → shared_object s ≡ true → IsSharedObject s
unfolding shared_object
shared_object_sound [] h = cc
shared_object_sound (c ∷ s) h =
    elim (Bool-cases (has_prefix (c ∷ s) (codes ".so") && version (drop 3 (c ∷ s)))) [
      | inl here ↦
          let prefix : has_prefix (c ∷ s) (codes ".so") ≡ true = ground arith in
          let tail : version (drop 3 (c ∷ s)) ≡ true = ground arith in
          (
            [],
            drop 3 (c ∷ s),
            has_prefix_split (c ∷ s) (codes ".so") prefix,
            version_sound (drop 3 (c ∷ s)) tail,
          )
      | inr other ↦
          let (stem, t, e, v) = shared_object_sound s (ground arith) in
          (c ∷ stem, t, ap (λ r. c ∷ r) e, v)
    ]

shared_object_here : (t : Bytes) → version t ≡ true → shared_object (codes ".so" ++ t) ≡ true
unfolding shared_object
shared_object_here t h =
    let p : has_prefix (codes ".so" ++ t) (codes ".so") ≡ true =
      has_prefix-append (codes ".so") t in
    rw (p, h)

shared_object_complete :
    (stem t : Bytes) → IsVersion t → shared_object (stem ++ (codes ".so" ++ t)) ≡ true
unfolding shared_object
shared_object_complete [] t v = shared_object_here t (version_complete t v)
shared_object_complete (c ∷ stem) t v = ground (arith, shared_object_complete stem t v)

-- `sharedObjectRegex` matches a path exactly where it ends in `.so`, or in `.so.` and one or more digits
-- and dots.
pub shared_object_iff : (s : Bytes) → (shared_object s ≡ true) ↔ IsSharedObject s
shared_object_iff s =
    (shared_object_sound s, λ (stem, t, e, v). rw e (shared_object_complete stem t v))
