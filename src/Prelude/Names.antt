-- ===== src/Prelude/Names.antt =====
-- Lists of byte strings as sets of names.
use mathlib.Core.Path.{◌≡◌, refl}
use mathlib.Core.Bool.{Bool, false, ◌||◌}
use mathlib.Core.List.{List, [], ◌∷◌, ◌++◌}
use native.Mathlib.Omega.{arith}
use envbox.Prelude.Lists.{any}
use envbox.Prelude.Text.{Bytes, same}

abbrev pub member : Bytes → List Bytes → Bool
member n names = any names (same n)

-- No name stands twice.
abbrev pub Distinct : List Bytes → Type 0
Distinct [] = Unit
Distinct (x ∷ xs) = (member x xs ≡ false) × Distinct xs

pub member-append :
    (n : Bytes) (xs ys : List Bytes) → member n (xs ++ ys) ≡ member n xs || member n ys
member-append n [] ys = refl
member-append n (x ∷ xs) ys = ground (arith, member-append n xs ys)

pub same_comm : (s t : Bytes) → same s t ≡ same t s
unfolding same
same_comm [] [] = refl
same_comm [] (d ∷ t) = refl
same_comm (c ∷ s) [] = refl
same_comm (c ∷ s) (d ∷ t) = ground (arith, same_comm s t)

pub Distinct-snoc :
    (xs : List Bytes) (n : Bytes) → Distinct xs → member n xs ≡ false → Distinct (xs ++ n ∷ [])
Distinct-snoc [] n _ _ = (refl, tt)
Distinct-snoc (x ∷ xs) n (h, d) new = (
  ground (arith, member-append x xs (n ∷ []), same_comm x n),
  Distinct-snoc xs n d (ground arith),
)
