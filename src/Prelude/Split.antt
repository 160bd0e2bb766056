-- ===== src/Prelude/Split.antt =====
-- Laws of `strings.Split` and `strings.Join` with a separator of one byte, and of prefixes.
use mathlib.Core.Path.{◌≡◌, refl, ap, ◌∙◌}
use mathlib.Core.Logic.{◌≢◌}
use mathlib.Core.Bool.{true, false}
use mathlib.Core.List.{List, [], ◌∷◌, ◌++◌, cons-ne-nil}
use Prim.Native.Nat.{ℕ}
use native.Mathlib.Omega.{arith}
use native.Mathlib.Decide.{ℕ_discrete}
use envbox.Prelude.Tests.{◌==◌, ==_self}
use envbox.Prelude.Lists.{All, length, drop}
use envbox.Prelude.Text.{Bytes, Lacks, split, join, cons_first, has_prefix, trim_prefix}

cons_first-ne-nil : (d : ℕ) (ps : List Bytes) → cons_first d ps ≢ []
unfolding cons_first
cons_first-ne-nil d [] = cons-ne-nil _ _
cons_first-ne-nil d (p ∷ ps) = cons-ne-nil _ _

pub split-ne-nil : (s : Bytes) (sep : ℕ) → split s sep ≢ []
unfolding split
split-ne-nil [] sep = cons-ne-nil _ _
split-ne-nil (c ∷ s) sep = ground (arith, cons_first-ne-nil c (split s sep))

cons_first-Lacks :
    (sep c : ℕ) (ps : List Bytes) → c ≢ sep → All (Lacks sep) ps → All (Lacks sep) (cons_first c ps)
unfolding cons_first
cons_first-Lacks sep c [] h _ = ((h, tt), tt)
cons_first-Lacks sep c (p ∷ ps) h a = ((h, a.0), a.1)

-- No part of a split holds the separator.
pub split-Lacks : (s : Bytes) (sep : ℕ) → All (Lacks sep) (split s sep)
unfolding split
split-Lacks [] sep = (tt, tt)
split-Lacks (c ∷ s) sep = elim (ℕ_discrete c sep) [
  | yes e ↦ let t : (c == sep) ≡ true = ground arith in rw t (tt, split-Lacks s sep)
  | no ne ↦
      let t : (c == sep) ≡ false = ground arith in
      rw t (cons_first-Lacks sep c (split s sep) ne (split-Lacks s sep))
]

pub split-append :
    (p : Bytes) (sep : ℕ) (s : Bytes) → Lacks sep p → split (p ++ sep ∷ s) sep ≡ p ∷ split s sep
unfolding split
split-append [] sep s _ = rw ==_self
split-append (c ∷ p) sep s (h, a) =
    let t : (c == sep) ≡ false = ground arith in rw (t, split-append p sep s a)

pub split_single : (p : Bytes) (sep : ℕ) → Lacks sep p → split p sep ≡ p ∷ []
unfolding split
split_single [] sep _ = refl
split_single (c ∷ p) sep (h, a) =
    let t : (c == sep) ≡ false = ground arith in rw (t, split_single p sep a)

-- Splitting a join gives the parts back, if there is a part and none holds the separator.
pub split-join :
    (ps : List Bytes) (sep : ℕ) → ps ≢ [] → All (Lacks sep) ps → split (join ps sep) sep ≡ ps
unfolding join
split-join [] sep h _ = absurd (h refl)
split-join (p ∷ []) sep _ (a, _) = split_single p sep a
split-join (p ∷ q ∷ ps) sep _ (a, as') =
    split-append p sep (join (q ∷ ps) sep) a
    ∙ ap (λ l. p ∷ l) (split-join (q ∷ ps) sep (cons-ne-nil q ps) as')

pub has_prefix-append : (p s : Bytes) → has_prefix (p ++ s) p ≡ true
unfolding has_prefix
has_prefix-append [] [] = refl
has_prefix-append [] (c ∷ s) = refl
has_prefix-append (c ∷ p) s = rw (==_self, has_prefix-append p s)

pub drop-append_self : (p s : Bytes) → drop (length p) (p ++ s) ≡ s
drop-append_self [] s = refl
drop-append_self (c ∷ p) s = drop-append_self p s

pub trim_prefix-append : (p s : Bytes) → trim_prefix (p ++ s) p ≡ s
unfolding trim_prefix
trim_prefix-append p s = rw (has_prefix-append p s) (drop-append_self p s)

-- A text with a prefix is the prefix and the rest.
pub has_prefix_split : (s p : Bytes) → has_prefix s p ≡ true → s ≡ p ++ drop (length p) s
unfolding has_prefix
has_prefix_split [] [] h = refl
has_prefix_split (c ∷ s) [] h = refl
has_prefix_split [] (d ∷ p) h = cc
has_prefix_split (c ∷ s) (d ∷ p) h = ground (arith, has_prefix_split s p)
